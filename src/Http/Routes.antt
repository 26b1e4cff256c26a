-- ===== src/Http/Routes.antt =====
-- The table of dsp_http.c and the server that runs, over histories of calls.
use dsp_embedded.Prelude.{
  ℕ, ◌≡◌, refl, sym, subst, true, false, some, List, [], ◌∷◌, ◌++◌, arith, if◌then◌else◌, set,
  find_index, find_index-cons, Bool-cases, ◌⊎◌, inl, inr,
}
use dsp_embedded.Http.{Route, Httpd, is_free, apply_routes}

-- The routes that are in use, in the order of the table.
abbrev pub used_routes : List Route → List Route
used_routes [] = []
used_routes (r ∷ rs) = if r.used then r ∷ used_routes rs else used_routes rs

-- What a server knows that was given these routes one after the other.
abbrev pub serving : (h : Httpd) → h.Server → List Route → h.Server
serving h s [] = s
serving h s (r ∷ rs) = serving h (h.register s r).1 rs

pub serving-append :
    (h : Httpd) (s : h.Server) (rs : List Route) (r : Route)
    → serving h s (rs ++ (r ∷ [])) ≡ (h.register (serving h s rs) r).1
serving-append h s [] r = refl
serving-append h s (x ∷ rs) r = serving-append h (h.register s x).1 rs r

pub apply_routes-serving :
    (h : Httpd) (rs : List Route) (s : h.Server)
    → apply_routes h rs s ≡ serving h s (used_routes rs)
unfolding apply_routes
apply_routes-serving h [] s = refl
apply_routes-serving h (r ∷ rs) s = elim (Bool-cases r.used) [
  | inl e ↦ ground (arith, apply_routes-serving h rs (h.register s r).1)
  | inr e ↦ ground (arith, apply_routes-serving h rs s)
]

-- No route stands behind a free slot.
abbrev pub IsPacked : List Route → Type 0
IsPacked [] = Unit {0}
IsPacked (r ∷ rs) = ((r.used ≡ true) × IsPacked rs) ⊎ ((r.used ≡ false) × (used_routes rs ≡ []))

pub IsPacked-of_none : (rs : List Route) → used_routes rs ≡ [] → IsPacked rs
IsPacked-of_none [] e = tt
IsPacked-of_none (r ∷ rs) e = elim (Bool-cases r.used) [
  | inl u ↦ absurd (ground arith)
  | inr f ↦ inr (f, ground arith)
]

-- A write into the first free slot.
pub record Fills (rs : List Route) (i : ℕ) (r : Route) : Type 0 where
  pub taken : r.used ≡ true → used_routes (set rs i r) ≡ used_routes rs ++ (r ∷ [])
  pub given_back : r.used ≡ false → used_routes (set rs i r) ≡ used_routes rs
  pub packed : IsPacked (set rs i r)

Fills-free :
    (x : Route) (rs : List Route) (r : Route)
    → x.used ≡ false
    → used_routes rs ≡ []
    → Fills (x ∷ rs) 0 r
Fills-free x rs r free rest = record {
  taken = λ u. ground arith;
  given_back = λ u. ground arith;
  packed = elim (Bool-cases r.used) [
    | inl u ↦ inl (u, IsPacked-of_none rs rest)
    | inr f ↦ inr (f, rest)
  ];
}

pub set-Fills :
    (rs : List Route) (i : ℕ) (r : Route)
    → IsPacked rs
    → find_index is_free rs ≡ some i
    → Fills rs i r
set-Fills [] i r p f = absurd (cc)
set-Fills (x ∷ rs) i r (inr (free, rest)) f =
    let here : i ≡ 0 = ground (arith, f, free) in
    subst (λ j. Fills (x ∷ rs) j r) (sym here) (Fills-free x rs r free rest)
set-Fills (x ∷ rs) i r (inl (busy, p)) f =
    let (k, q, at) = find_index-cons is_free x rs i f (ground arith) in
    let ih = set-Fills rs k r p q in
    subst (λ j. Fills (x ∷ rs) j r) (sym at)
      (record {
        taken = λ u. ground (arith, ih.taken u);
        given_back = λ u. ground (arith, ih.given_back u);
        packed = inl (busy, ih.packed);
      })
