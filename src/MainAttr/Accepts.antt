-- ===== src/MainAttr/Accepts.antt =====
-- Which programs `hooch_main` (hooch-macro/src/lib.rs) accepts.
use hooch.Base.{
  ℕ, ◌≡◌, ◌<◌, refl, ap, ◌∙◌, ◌⊎◌, ◌↔◌, inl, inr, arith, Bool, true, false, List, [], ◌∷◌,
  usize_size, Result, ok, err,
}
use hooch.MainAttr.{
  Ident, main, workers, named, TokenTree, ident, equals, lit_int, punctuation, ItemFn, Error,
  Program, default_num_workers, parse_value, parse, workers_of, expand, hooch_main,
}

-- The attribute asks for `n` workers: it is empty, or it reads `workers = n`.
abbrev pub AsksFor : List TokenTree → ℕ → Type 0
AsksFor attr n =
    ((attr ≡ []) × (n ≡ default_num_workers))
    ⊎ ((attr ≡ ident workers ∷ equals ∷ lit_int n ∷ []) × (n < usize_size))

asked : (attr : List TokenTree) (n : ℕ) → AsksFor attr n → workers_of attr ≡ ok n
unfolding workers_of parse parse_value
asked attr n (inl (nil, one)) = rw (nil, one) refl
asked attr n (inr (named_one, small)) = rw (named_one) (ground arith)

pub AsksFor-hooch_main :
    (attr : List TokenTree) (input : ItemFn) (n : ℕ)
    → AsksFor attr n
    → input.name ≡ main
    → input.is_async ≡ true
    → hooch_main attr input ≡ ok (record { num_workers = n })
unfolding hooch_main expand
AsksFor-hooch_main attr input n asks is_main is_async =
    rw (is_main, asked attr n asks, is_async) refl

workers_asked : (attr : List TokenTree) (n : ℕ) → workers_of attr ≡ ok n → AsksFor attr n
unfolding workers_of parse parse_value
workers_asked [] n e = inl (refl, ground (arith, e))
workers_asked (ident workers ∷ equals ∷ lit_int k ∷ []) n e =
    inr (ground (arith, e), ground (arith, e))
workers_asked (equals ∷ ts) n e = absurd (cc e)
workers_asked (lit_int k ∷ ts) n e = absurd (cc e)
workers_asked (punctuation ∷ ts) n e = absurd (cc e)
workers_asked (ident name ∷ []) n e = absurd (cc e)
workers_asked (ident name ∷ ident k ∷ ts) n e = absurd (cc e)
workers_asked (ident name ∷ lit_int k ∷ ts) n e = absurd (cc e)
workers_asked (ident name ∷ punctuation ∷ ts) n e = absurd (cc e)
workers_asked (ident name ∷ equals ∷ []) n e = absurd (cc e)
workers_asked (ident name ∷ equals ∷ ident k ∷ ts) n e = absurd (cc e)
workers_asked (ident name ∷ equals ∷ equals ∷ ts) n e = absurd (cc e)
workers_asked (ident name ∷ equals ∷ punctuation ∷ ts) n e = absurd (cc e)
workers_asked (ident main ∷ equals ∷ lit_int k ∷ rest) n e = absurd (cc e)
workers_asked (ident (named j) ∷ equals ∷ lit_int k ∷ rest) n e = absurd (cc e)
workers_asked (ident workers ∷ equals ∷ lit_int k ∷ t ∷ rest) n e = absurd (cc e)

workers_in : Result Program Error → Result ℕ Error
workers_in (ok p) = ok p.num_workers
workers_in (err e) = err e

expanded :
    (attr : List TokenTree) (got : Result ℕ Error) (is_async : Bool) (p : Program)
    → workers_of attr ≡ got
    → expand got is_async ≡ ok p
    → AsksFor attr p.num_workers × (is_async ≡ true)
unfolding expand workers_in
expanded attr (err x) is_async p w e = absurd (cc e)
expanded attr (ok n) false p w e = absurd (cc e)
expanded attr (ok n) true p w e = (workers_asked attr p.num_workers (w ∙ ap workers_in e), refl)

accepted :
    (attr : List TokenTree) (name : Ident) (is_async : Bool) (p : Program)
    → hooch_main attr (record { name = name; is_async = is_async }) ≡ ok p
    → AsksFor attr p.num_workers × (name ≡ main) × (is_async ≡ true)
unfolding hooch_main
accepted attr main is_async p e =
    let (asks, async) = expanded attr (workers_of attr) is_async p refl e in (asks, refl, async)
accepted attr workers is_async p e = absurd (cc e)
accepted attr (named n) is_async p e = absurd (cc e)

-- The macro generates a program with n workers exactly if the function is named `main` and `async`,
-- and the attribute is empty and n is 1, or it reads `workers = n` for an n below 2 ^ 64.
pub hooch_main_accepts :
    (attr : List TokenTree) (input : ItemFn) (n : ℕ)
    → (hooch_main attr input ≡ ok (record { num_workers = n }))
      ↔ (AsksFor attr n × (input.name ≡ main) × (input.is_async ≡ true))
hooch_main_accepts attr input n = (
  λ e. accepted attr input.name input.is_async (record { num_workers = n }) e,
  λ (asks, is_main, is_async). AsksFor-hooch_main attr input n asks is_main is_async,
)
