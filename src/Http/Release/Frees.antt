-- ===== src/Http/Release/Frees.antt =====
-- A command is freed but for its name.
use rpiweatherd.Base.{
  ℕ, suc, ◌+◌, ◌<◌, ◌≡◌, refl, none, some, List, [], ◌∷◌, ◌++◌, length, ret, fault, ◌>>=◌, arith,
  null_pointer,
}
use rpiweatherd.CLib.Heap.{Ptr, Live, count, free, load}
use rpiweatherd.CLib.Heap.Frees.{
  blocks, is_live-count, count-append, AreLive, Returns-ret, Frees, Frees-ret, Frees-free,
  Frees-seq, Frees-load,
}
use rpiweatherd.Http.Release.{
  HttpCmdParamPtrs, HttpCmdPtrs, http_cmd_param_free, free_params, free_array, http_cmd_free,
}

abbrev pub param_ptrs : HttpCmdParamPtrs → List Ptr
param_ptrs p = p.name ∷ p.value ∷ []

abbrev pub params_ptrs : List HttpCmdParamPtrs → List Ptr
params_ptrs [] = []
params_ptrs (p ∷ ps) = param_ptrs p ++ params_ptrs ps

-- Without the name.
abbrev pub cmd_ptrs : HttpCmdPtrs → List Ptr
cmd_ptrs cmd = params_ptrs cmd.items ++ (cmd.params ∷ some cmd.address ∷ [])

-- The array has an entry for each parameter in use.
pub record IsArray (cmd : HttpCmdPtrs) (at : ℕ) : Type 0 where
  pub array : cmd.params ≡ some at
  pub entries : cmd.length ≡ length cmd.items

http_cmd_param_free-Frees :
    (keep : List ℕ) (at : ℕ) (p : HttpCmdParamPtrs)
    → 0 < count at keep
    → Frees keep (param_ptrs p) (http_cmd_param_free at p)
unfolding http_cmd_param_free
http_cmd_param_free-Frees keep at p h =
    let h' : 0 < count at (blocks (p.value ∷ []) ++ keep) =
      omega (arith, count-append at (blocks (p.value ∷ [])) keep) in
    Frees-seq keep (p.name ∷ []) (p.value ∷ []) (load at (free p.name)) (load at (free p.value))
      (Frees-load _ (p.name ∷ []) at (free p.name) (omega (arith, h')) (Frees-free _ p.name))
      (Frees-load keep (p.value ∷ []) at (free p.value) (omega (arith, h))
        (Frees-free keep p.value))

free_params-Frees :
    (keep : List ℕ) (at : ℕ) (ps : List HttpCmdParamPtrs)
    → 0 < count at keep
    → Frees keep (params_ptrs ps) (free_params at (length ps) ps)
unfolding free_params
free_params-Frees keep at [] h = Frees-ret keep
free_params-Frees keep at (p ∷ ps) h =
    Frees-seq keep (param_ptrs p) (params_ptrs ps) (http_cmd_param_free at p)
      (free_params at (length ps) ps)
      (http_cmd_param_free-Frees _ at p
        (omega (arith, count-append at (blocks (params_ptrs ps)) keep)))
      (free_params-Frees keep at ps h)

http_cmd_free-Frees :
    (keep : List ℕ) (cmd : HttpCmdPtrs) (at : ℕ)
    → IsArray cmd at
    → Frees keep (cmd_ptrs cmd) (http_cmd_free cmd)
unfolding http_cmd_free free_array
http_cmd_free-Frees keep cmd at a =
    rw (a.array, a.entries)
      (Frees-seq keep (params_ptrs cmd.items) (some at ∷ some cmd.address ∷ [])
        (load cmd.address (free_params at (length cmd.items) cmd.items))
        (λ live. load cmd.address (free (some at)) live >>= free (some cmd.address))
        (Frees-load (at ∷ cmd.address ∷ keep) (params_ptrs cmd.items) cmd.address _ (ground arith)
          (free_params-Frees (at ∷ cmd.address ∷ keep) at cmd.items (ground arith)))
        (Frees-seq keep (some at ∷ []) (some cmd.address ∷ []) (load cmd.address (free (some at)))
          (free (some cmd.address))
          (Frees-load (cmd.address ∷ keep) (some at ∷ []) cmd.address _ (ground arith)
            (Frees-free _ (some at)))
          (Frees-free keep (some cmd.address))))

-- A command whose array of parameters was allocated and has `length` entries: where its block, its
-- array and the strings of its parameters are live, each as often as the command names it,
-- http_cmd_free returns, and has freed each of them as often as that, and nothing else, not even the
-- name of the command.
pub http_cmd_free_lem :
    (cmd : HttpCmdPtrs) (at : ℕ) (live : Live)
    → IsArray cmd at
    → AreLive (cmd_ptrs cmd) [] live
    → (live' : Live) × (http_cmd_free cmd live ≡ ret live')
      × ((x : ℕ) → count x live' + count x (blocks (cmd_ptrs cmd)) ≡ count x live)
http_cmd_free_lem cmd at live a h =
    Returns-ret (cmd_ptrs cmd) live (http_cmd_free cmd live)
      ((http_cmd_free-Frees [] cmd at a).run live h)

-- A command with parameters whose array is NULL, as a `realloc` that fails leaves it, is read
-- through that NULL.
pub http_cmd_free-null :
    (cmd : HttpCmdPtrs) (live : Live) (n : ℕ)
    → cmd.params ≡ none
    → cmd.length ≡ suc n
    → 0 < count cmd.address live
    → http_cmd_free cmd live ≡ fault null_pointer
unfolding http_cmd_free free_array load
http_cmd_free-null cmd live n p l h = rw (p, l, is_live-count cmd.address live h) refl
