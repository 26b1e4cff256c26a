-- ===== src/Handlers/Tables.antt =====
-- The two slot tables together (components/dsp_neg, components/dsp_xfer): a transfer and the
-- negotiation that it stands on.
use dsp_embedded.Prelude.{
  ℕ, zero, suc, ◌<◌, ◌≤◌, ◌≡◌, sym, ap, subst, ◌∙◌, ◌⊎◌, inl, inr, true, false, Option, some, List,
  [], ◌∷◌, arith, get_elem?, set, length, Text, ℤ, pos,
}
use dsp_embedded.Neg
use dsp_embedded.Neg.{
  NegState, initial, agreed, NegEntry, Negotiations, has_cpid, find_by_cpid, get_state, slot,
}
use dsp_embedded.Neg.Machine.{rank}
use dsp_embedded.Neg.Lives.{LivesOn, create-LivesOn, apply-LivesOn}
use dsp_embedded.Neg.Lifecycle.{IsValid, create-IsValid, apply-IsValid, get_elem?-Fits}
use dsp_embedded.Neg.Found.{strncmp_eq-fits, find_by_cpid_state}
use dsp_embedded.Xfer.{XferEntry, Transfers}

-- No negotiation of `m` is lost in `m'`, and the table stays well-formed.
pub record Grows (max : ℕ) (m m' : Negotiations) : Type 0 where
  pub lives :
      (e : NegEntry) (i : ℕ) → get_elem? m.table i ≡ some e → e.active ≡ true → LivesOn e m'.table i
  pub valid : IsValid max m → IsValid max m'

pub create-Grows :
    (max : ℕ) (m : Negotiations) (cpid ppid : Option Text) → Grows max m (Neg.create m cpid ppid).1
create-Grows max m cpid ppid = record {
  lives = λ e i g a. create-LivesOn m cpid ppid g a;
  valid = create-IsValid cpid ppid;
}

pub apply-Grows :
    (max : ℕ) (m : Negotiations) (idx : ℤ) (event : Neg.NegEvent)
    → Grows max m (Neg.apply m idx event).1
apply-Grows max m idx event = record {
  lives = λ e i g a. apply-LivesOn m idx event g a;
  valid = apply-IsValid idx event;
}

-- A negotiation of the table that is AGREED.
pub record AgreedIn (t : List NegEntry) (pid : Text) : Type 0 where
  pub place : ℕ
  pub entry : NegEntry
  pub there : get_elem? t place ≡ some entry
  pub in_use : entry.active ≡ true
  pub same_pid : entry.consumer_pid ≡ pid
  pub now : entry.state ≡ agreed

-- The negotiation of the table behind a process ID: in use, not in a state before AGREED, and of a
-- process ID with the property `W`.
pub record Backing (W : Text → Type 0) (t : List NegEntry) (pid : Text) : Type 0 where
  pub place : ℕ
  pub entry : NegEntry
  pub there : get_elem? t place ≡ some entry
  pub in_use : entry.active ≡ true
  pub same_pid : entry.consumer_pid ≡ pid
  pub far : rank agreed ≤ rank entry.state
  pub was : W pid

-- A transfer in use stands on a negotiation.
abbrev pub IsBacked : (Text → Type 0) → List NegEntry → XferEntry → Type 0
IsBacked W t x = (x.active ≡ false) ⊎ Backing W t x.process_id

abbrev pub AllBacked : (Text → Type 0) → List NegEntry → List XferEntry → Type 0
AllBacked W t [] = Unit {0}
AllBacked W t (x ∷ xs) = IsBacked W t x × AllBacked W t xs

Backing-Grows :
    {W : Text → Type 0} (max : ℕ) (m m' : Negotiations) (pid : Text)
    → Grows max m m'
    → Backing W m.table pid
    → Backing W m'.table pid
Backing-Grows max m m' pid g b =
    let l = g.lives b.entry b.place b.there b.in_use in
    record {
      place = b.place;
      entry = l.now;
      there = l.there;
      in_use = l.in_use;
      same_pid = l.same_consumer ∙ b.same_pid;
      far = omega (arith, b.far, l.no_less_far);
      was = b.was;
    }

AllBacked-Grows :
    (W : Text → Type 0) (max : ℕ) (m m' : Negotiations) (xs : List XferEntry)
    → Grows max m m'
    → AllBacked W m.table xs
    → AllBacked W m'.table xs
AllBacked-Grows W max m m' [] g b = tt
AllBacked-Grows W max m m' (x ∷ xs) g (inl free, rest) =
    (inl free, AllBacked-Grows W max m m' xs g rest)
AllBacked-Grows W max m m' (x ∷ xs) g (inr backing, rest) =
    (inr (Backing-Grows max m m' x.process_id g backing), AllBacked-Grows W max m m' xs g rest)

set-AllBacked :
    (W : Text → Type 0) (t : List NegEntry) (xs : List XferEntry) (i : ℕ) (x : XferEntry)
    → IsBacked W t x
    → AllBacked W t xs
    → AllBacked W t (set xs i x)
set-AllBacked W t [] i x b all = tt
set-AllBacked W t (y ∷ xs) zero x b all = (b, all.1)
set-AllBacked W t (y ∷ xs) (suc i) x b all = (all.0, set-AllBacked W t xs i x b all.1)

pub get_elem?-IsBacked :
    (W : Text → Type 0) (t : List NegEntry) (xs : List XferEntry) (i : ℕ) (x : XferEntry)
    → AllBacked W t xs
    → get_elem? xs i ≡ some x
    → IsBacked W t x
get_elem?-IsBacked W t [] i x all g = absurd (cc)
get_elem?-IsBacked W t (y ∷ xs) zero x all g =
    let same : y ≡ x = ground (arith, g) in subst (IsBacked W t) same all.0
get_elem?-IsBacked W t (y ∷ xs) (suc i) x all g = get_elem?-IsBacked W t xs i x all.1 g

-- The negotiation that is found AGREED for a process ID stands behind it.
pub found-Backing :
    {W : Text → Type 0} (max : ℕ) (m : Negotiations) (pid : Text) (k : ℕ)
    → IsValid max m
    → length pid < 64
    → find_by_cpid m (some pid) ≡ pos k
    → get_state m (pos k) ≡ agreed
    → (AgreedIn m.table pid → W pid)
    → Backing W m.table pid
found-Backing max m pid k v fits found state w =
    let (e, at, busy, same, now) = find_by_cpid_state m pid k found in
    let same_pid' =
      strncmp_eq-fits e.consumer_pid pid (get_elem?-Fits m.table k e v.fit at).0 fits same in
    record {
      place = k;
      entry = e;
      there = at;
      in_use = busy;
      same_pid = same_pid';
      far = omega (arith, ap rank (sym state ∙ now));
      was = w (record {
        place = k;
        entry = e;
        there = at;
        in_use = busy;
        same_pid = same_pid';
        now = sym now ∙ state;
      });
    }

-- Both tables: the negotiations are well-formed, and every transfer in use stands on one.
pub record AreSound (W : Text → Type 0) (max : ℕ) (m : Negotiations) (x : Transfers) : Type 0 where
  pub well_formed : IsValid max m
  pub backed : AllBacked W m.table x.table

pub AreSound-Grows :
    {W : Text → Type 0} {max : ℕ} {m m' : Negotiations} {x : Transfers}
    → Grows max m m'
    → AreSound W max m x
    → AreSound W max m' x
AreSound-Grows {W = W} {max = max} {m = m} {m' = m'} {x = x} g s = record {
  well_formed = g.valid s.well_formed;
  backed = AllBacked-Grows W max m m' x.table g s.backed;
}

-- A write to the table of transfers of an entry that stands on a negotiation.
pub AreSound-set :
    {W : Text → Type 0} {max : ℕ} {m : Negotiations} {x x' : Transfers} (i : ℕ) (e : XferEntry)
    → x'.table ≡ set x.table i e
    → IsBacked W m.table e
    → AreSound W max m x
    → AreSound W max m x'
AreSound-set {W = W} {m = m} {x = x} i e written b s = record {
  well_formed = s.well_formed;
  backed =
      subst (AllBacked W m.table) (sym written) (set-AllBacked W m.table x.table i e b s.backed);
}
