-- ===== src/Power/Kept.antt =====
-- The slot tables of dsp_neg and dsp_xfer as deep sleep leaves them (components/dsp_power).
use dsp_embedded.Prelude.{
  ℕ, ◌≡◌, ◌⊎◌, refl, ap, ◌∙◌, inl, inr, Bool, true, false, some, List, [], ◌∷◌, map, arith,
  get_elem?-map, length-map, Bool-cases, Text,
}
use dsp_embedded.Neg.{NegEntry, Negotiations}
use dsp_embedded.Neg.Refine.{IsPacked, active_in}
use dsp_embedded.Neg.Lifecycle.{AllFit, Fits}
use dsp_embedded.Xfer.{XferEntry, Transfers}
use dsp_embedded.Rtc.Restore.{kept, xkept}
use dsp_embedded.Handlers.Tables.{Backing, IsBacked, AllBacked, AreSound}

kept-busy : (e : NegEntry) → e.active ≡ true → kept e ≡ e
kept-busy e a = rw a refl

kept-active : (e : NegEntry) → (kept e).active ≡ e.active
kept-active e = ground arith

active_in-kept : (t : List NegEntry) → active_in (map kept t) ≡ active_in t
active_in-kept [] = refl
active_in-kept (e ∷ t) = ground (arith, active_in-kept t, kept-active e)

kept-IsPacked : (t : List NegEntry) → IsPacked t → IsPacked (map kept t)
kept-IsPacked [] p = tt
kept-IsPacked (e ∷ t) (inl (busy, p)) = inl (kept-active e ∙ busy, kept-IsPacked t p)
kept-IsPacked (e ∷ t) (inr (free, rest)) = inr (kept-active e ∙ free, active_in-kept t ∙ rest)

kept-AllFit : (t : List NegEntry) → AllFit t → AllFit (map kept t)
kept-AllFit [] f = tt
kept-AllFit (e ∷ t) f = (fits (Bool-cases e.active), kept-AllFit t f.1)
  where
    fits : (e.active ≡ true) ⊎ (e.active ≡ false) → Fits (kept e)
    fits (inl a) = rw a f.0
    fits (inr a) = rw a (omega arith, omega arith)

kept-Backing :
    (W : Text → Type 0) (t : List NegEntry) (pid : Text)
    → Backing W t pid
    → Backing W (map kept t) pid
kept-Backing W t pid b = record {
  place = b.place;
  entry = b.entry;
  there = get_elem?-map kept t b.place b.there ∙ ap some (kept-busy b.entry b.in_use);
  in_use = b.in_use;
  same_pid = b.same_pid;
  far = b.far;
  was = b.was;
}

xkept-IsBacked :
    (W : Text → Type 0) (t : List NegEntry) (x : XferEntry)
    → IsBacked W t x
    → IsBacked W (map kept t) (xkept x)
xkept-IsBacked W t x (inl free) = rw free (inl refl)
xkept-IsBacked W t x (inr b) = elim (Bool-cases x.active) [
  | inl a ↦ rw a (inr (kept-Backing W t x.process_id b))
  | inr a ↦ rw a (inl refl)
]

xkept-AllBacked :
    (W : Text → Type 0) (t : List NegEntry) (xs : List XferEntry)
    → AllBacked W t xs
    → AllBacked W (map kept t) (map xkept xs)
xkept-AllBacked W t [] all = tt
xkept-AllBacked W t (x ∷ xs) all = (xkept-IsBacked W t x all.0, xkept-AllBacked W t xs all.1)

-- The tables that come back are as well-formed, and their transfers stand on their negotiations.
pub kept-AreSound :
    {W : Text → Type 0} {max : ℕ} (m : Negotiations) (x x' : Transfers) (up : Bool)
    → AreSound W max m x
    → AreSound W max
        (record { table = map kept m.table; initialized = up })
        (record x' { table = map xkept x.table })
kept-AreSound {W = W} m x x' up s = record {
  well_formed = record {
    sized = length-map kept m.table ∙ s.well_formed.sized;
    packed = kept-IsPacked m.table s.well_formed.packed;
    fit = kept-AllFit m.table s.well_formed.fit;
  };
  backed = xkept-AllBacked W m.table x.table s.backed;
}
