-- ===== src/Http/Release.antt =====
-- src/http.c: http_cmd_param_free and http_cmd_free. A command is known by the address of its block
-- and the pointers that it holds.
pub mod Frees
use rpiweatherd.Base.{
  ℕ, zero, suc, Option, none, some, List, [], ◌∷◌, Outcome, ret, fault, null_pointer, uninitialised,
  ◌>>=◌,
}
use rpiweatherd.CLib.Heap.{Ptr, Live, free, load}

pub record HttpCmdParamPtrs : Type 0 where
  pub name : Ptr
  pub value : Ptr

pub record HttpCmdPtrs : Type 0 where
  pub address : ℕ
  pub cmdname : Ptr
  pub length : ℕ
  pub params : Ptr
  pub items : List HttpCmdParamPtrs

-- The parameter lies in the array at `at`.
unfoldable pub http_cmd_param_free : ℕ → HttpCmdParamPtrs → Live → Outcome Live
unfolding free load
http_cmd_param_free at ptr live = do
  live' ← load at (free ptr.name) live
  load at (free ptr.value) live'

unfoldable pub free_params : ℕ → ℕ → List HttpCmdParamPtrs → Live → Outcome Live
unfolding http_cmd_param_free
free_params at zero items live = ret live
free_params at (suc n) [] live = fault uninitialised
free_params at (suc n) (ptr ∷ items) live = do
  live' ← http_cmd_param_free at ptr live
  free_params at n items live'

-- The loop over the parameters, whose array may be NULL.
unfoldable pub free_array : Ptr → ℕ → List HttpCmdParamPtrs → Live → Outcome Live
unfolding free_params
free_array none zero items live = ret live
free_array none (suc n) items live = fault null_pointer
free_array (some at) n items live = free_params at n items live

-- The name of the command is not freed.
unfoldable pub http_cmd_free : HttpCmdPtrs → Live → Outcome Live
unfolding free_array
http_cmd_free ptr live = do
  live₁ ← load ptr.address (free_array ptr.params ptr.length ptr.items) live
  live₂ ← load ptr.address (free ptr.params) live₁
  free (some ptr.address) live₂

-- end_response behind its `close`.
unfoldable pub end_response : Option HttpCmdPtrs → Live → Outcome Live
unfolding http_cmd_free
end_response none live = ret live
end_response (some cmd) live = http_cmd_free cmd live
