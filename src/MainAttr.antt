-- ===== src/MainAttr.antt =====
-- hooch-macro/src/lib.rs, the attribute `hooch_main`.
pub mod Accepts
pub mod Runs
use hooch.Base.{
  ℕ, Bool, true, false, List, [], ◌∷◌, ltb, if◌then◌else◌, usize_size, Result, ok, err,
}
use hooch.Base.{Exec, done, ◌>>=◌}
use hooch.SyncChannel.{SyncChannel}
use hooch.DashMap.{DashMap}
use hooch.Task.{Task}
use hooch.Runtime.{World, build, start_blocking}
use hooch.Runtime.Builder.{new, with_num_workers}

-- The identifiers that the macro knows, and the others.
pub data Ident : Type 0 where
  main workers : Ident
  named : ℕ → Ident

-- The tokens of the attribute, of which a `LitInt` carries its value.
pub data TokenTree : Type 0 where
  ident : Ident → TokenTree
  equals : TokenTree
  lit_int : ℕ → TokenTree
  punctuation : TokenTree

-- What the macro reads of the function: the name, and whether it is `async`.
pub record ItemFn : Type 0 where
  pub name : Ident
  pub is_async : Bool

pub data Error : Type 0 where
  syntax_error : Error
  expected_workers : Error
  only_on_main : Error
  must_be_async : Error

-- The generated `main` builds a runtime with so many workers, and runs the user's function on it.
pub record Program : Type 0 where
  pub num_workers : ℕ

abbrev pub default_num_workers : ℕ
default_num_workers = 1

-- The end of `WorkersAttr::parse`, and the end of the input that `parse_macro_input` asks for.
unfoldable pub parse_value : Ident → ℕ → List TokenTree → Result ℕ Error
parse_value workers value [] = if ltb value usize_size then ok value else err syntax_error
parse_value workers value (t ∷ ts) = err syntax_error
parse_value main value rest = err expected_workers
parse_value (named n) value rest = err expected_workers

-- `parse_macro_input!(attr as WorkersAttr)`.
unfoldable pub parse : List TokenTree → Result ℕ Error
parse (ident name ∷ equals ∷ lit_int value ∷ rest) = parse_value name value rest
parse [] = err syntax_error
parse (equals ∷ ts) = err syntax_error
parse (lit_int n ∷ ts) = err syntax_error
parse (punctuation ∷ ts) = err syntax_error
parse (ident name ∷ []) = err syntax_error
parse (ident name ∷ ident n ∷ ts) = err syntax_error
parse (ident name ∷ lit_int n ∷ ts) = err syntax_error
parse (ident name ∷ punctuation ∷ ts) = err syntax_error
parse (ident name ∷ equals ∷ []) = err syntax_error
parse (ident name ∷ equals ∷ ident n ∷ ts) = err syntax_error
parse (ident name ∷ equals ∷ equals ∷ ts) = err syntax_error
parse (ident name ∷ equals ∷ punctuation ∷ ts) = err syntax_error

-- The number of workers that the attribute asks for.
unfoldable pub workers_of : List TokenTree → Result ℕ Error
workers_of [] = ok default_num_workers
workers_of (t ∷ ts) = parse (t ∷ ts)

-- The part of `hooch_main` that follows the check of the name.
unfoldable pub expand : Result ℕ Error → Bool → Result Program Error
expand (err e) is_async = err e
expand (ok n) false = err must_be_async
expand (ok n) true = ok (record { num_workers = n })

unfoldable pub hooch_main : List TokenTree → ItemFn → Result Program Error
hooch_main attr input = elim input.name [
  | main ↦ expand (workers_of attr) input.is_async
  | workers ↦ err only_on_main
  | named n ↦ err only_on_main
]

module _ (D : DashMap ℕ) {F : Type 0} (T : Type 0) where
  open D use {Map}

  -- The `main` of a generated program, whose async `main` has its future at the address `future`, as
  -- far as it waits for the future: the address of the handle's channel, and what `run_blocking`
  -- leaves.
  unfoldable pub generated_main :
      Program → ℕ → World Map F → Exec (ℕ × SyncChannel T × Task × World Map F)
  generated_main p future w = do
    (h, w1) ← build D (with_num_workers new p.num_workers).num_workers w
    (c, t, w2) ← start_blocking D {T = T} future w1
    done (h, c, t, w2)
