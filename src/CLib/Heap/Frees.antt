-- ===== src/CLib/Heap/Frees.antt =====
-- Rules for code that frees blocks: which blocks it needs, which it frees, and what stays.
use rpiweatherd.Base.{
  ℕ, ◌+◌, ◌≤◌, ◌<◌, ◌≡◌, refl, true, none, some, List, [], ◌∷◌, ◌++◌, Outcome, ret, fault, ◌>>=◌,
  arith,
}
use rpiweatherd.CLib.Heap.{Ptr, Live, count, is_live, release, free, load}

-- The blocks of pointers, NULLs left out.
abbrev pub blocks : List Ptr → List ℕ
blocks [] = []
blocks (none ∷ ps) = blocks ps
blocks (some x ∷ ps) = x ∷ blocks ps

pub count-append : (x : ℕ) (xs ys : List ℕ) → count x (xs ++ ys) ≡ count x xs + count x ys
count-append x [] ys = omega arith
count-append x (y ∷ xs) ys = ground (arith, count-append x xs ys)

pub blocks-append :
    (x : ℕ) (ps qs : List Ptr)
    → count x (blocks (ps ++ qs)) ≡ count x (blocks ps) + count x (blocks qs)
blocks-append x [] qs = omega arith
blocks-append x (none ∷ ps) qs = blocks-append x ps qs
blocks-append x (some y ∷ ps) qs = ground (arith, blocks-append x ps qs)

pub is_live-count : (x : ℕ) (live : Live) → 0 < count x live → is_live x live ≡ true
unfolding is_live
is_live-count x [] h = absurd (omega arith)
is_live-count x (y ∷ live) h = ground (arith, is_live-count x live)

pub release-count :
    (x y : ℕ) (live : Live)
    → is_live x live ≡ true
    → count y (release x live) + count y (x ∷ []) ≡ count y live
unfolding is_live release
release-count x y [] h = cc
release-count x y (z ∷ live) h = ground (arith, release-count x y live)

-- All blocks of `ps` and of `keep` are live, each as often as it is named.
abbrev pub AreLive : List Ptr → List ℕ → Live → Type 0
AreLive ps keep live = (x : ℕ) → count x (blocks ps) + count x keep ≤ count x live

-- The code returns, with the blocks of `ps` freed, each as often as it is named, and no other.
abbrev pub Returns : List Ptr → Live → Outcome Live → Type 0
Returns ps live (ret live') = (x : ℕ) → count x live' + count x (blocks ps) ≡ count x live
Returns ps live (fault e) = ⊥

-- Where the blocks of `ps` and of `keep` are live, the code frees those of `ps`.
pub record Frees (keep : List ℕ) (ps : List Ptr) (m : Live → Outcome Live) : Type 0 where
  pub run : (live : Live) → AreLive ps keep live → Returns ps live (m live)

pub Frees-ret : (keep : List ℕ) → Frees keep [] ret
Frees-ret keep = record { run = λ live h x. omega arith }

pub Frees-free : (keep : List ℕ) (p : Ptr) → Frees keep (p ∷ []) (free p)
unfolding free
Frees-free keep none = record { run = λ live h x. omega arith }
Frees-free keep (some x) = record {
  run = λ live h.
      let l = is_live-count x live (ground (arith, h x)) in rw l (λ y. release-count x y live l);
}

-- The first code needs what the second one frees.
pub Frees-seq :
    (keep : List ℕ) (ps qs : List Ptr) (m n : Live → Outcome Live)
    → Frees (blocks qs ++ keep) ps m
    → Frees keep qs n
    → Frees keep (ps ++ qs) (λ live. m live >>= n)
Frees-seq keep ps qs m n f g = record {
  run = λ live h.
      go live (m live) h (
        f.run live λ x. omega (arith, h x, count-append x (blocks qs) keep, blocks-append x ps qs));
}
  where
    go :
        (live : Live) (r : Outcome Live)
        → AreLive (ps ++ qs) keep live
        → Returns ps live r
        → Returns (ps ++ qs) live (r >>= n)
    go live (fault e) h r = r
    go live (ret live') h r =
        weaken live live' (n live') r
          (g.run live' λ x. omega (arith, h x, r x, blocks-append x ps qs))
      where
        weaken :
            (live live' : Live) (s : Outcome Live)
            → ((x : ℕ) → count x live' + count x (blocks ps) ≡ count x live)
            → Returns qs live' s
            → Returns (ps ++ qs) live s
        weaken live live' (fault e) r s = s
        weaken live live' (ret l) r s = λ x. omega (arith, r x, s x, blocks-append x ps qs)

-- A block that is kept, or freed later, can be read.
pub Frees-load :
    (keep : List ℕ) (ps : List Ptr) (at : ℕ) (m : Live → Outcome Live)
    → 0 < count at (blocks ps) + count at keep
    → Frees keep ps m
    → Frees keep ps (load at m)
unfolding load
Frees-load keep ps at m h f = record {
  run = λ live l. rw (is_live-count at live (omega (arith, h, l at))) (f.run live l);
}

pub Returns-ret :
    (ps : List Ptr) (live : Live) (r : Outcome Live)
    → Returns ps live r
    → (live' : Live) × (r ≡ ret live')
      × ((x : ℕ) → count x live' + count x (blocks ps) ≡ count x live)
Returns-ret ps live (ret live') h = (live', refl, h)
Returns-ret ps live (fault e) h = elim h [ ]
