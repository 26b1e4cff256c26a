-- ===== src/Neg/Found.antt =====
-- The entry at the index that dsp_neg_find_by_cpid returns.
use dsp_embedded.Prelude.{
  ℕ, ◌<◌, ◌≡◌, sym, ◌∙◌, true, Option, none, some, arith, get_elem?, length, take, take_of_le,
  find_index, find_index-some, &&-true, Text, strcmp_eq_iff, strncmp_eq, pos, index_or_minus_one,
}
use dsp_embedded.Neg.{NegEntry, Negotiations, has_cpid, find_by_cpid, get_state, slot}

index-some : (o : Option ℕ) (k : ℕ) → index_or_minus_one o ≡ pos k → o ≡ some k
index-some none k e = absurd (cc)
index-some (some i) k e = ground (arith, e)

-- A search that returns an index found an entry in use whose consumer PID agrees up to the length of
-- its field.
find_by_cpid-hit :
    (m : Negotiations) (pid : Text) (k : ℕ)
    → find_by_cpid m (some pid) ≡ pos k
    → (e : NegEntry) × (get_elem? m.table k ≡ some e) × (has_cpid pid e ≡ true)
unfolding find_by_cpid
find_by_cpid-hit m pid k found =
    find_index-some (has_cpid pid) m.table k
      (index-some (find_index (has_cpid pid) m.table) k found)

-- Strings that both fit the field are equal where their first 64 bytes are.
pub strncmp_eq-fits :
    (a b : Text) → length a < 64 → length b < 64 → strncmp_eq 64 a b ≡ true → a ≡ b
strncmp_eq-fits a b f g e =
    sym (take_of_le 64 a (omega (arith, f)))
    ∙ (strcmp_eq_iff (take 64 a) (take 64 b)).0 e
    ∙ take_of_le 64 b (omega (arith, g))

get_state-at :
    (m : Negotiations) (k : ℕ) (e : NegEntry)
    → get_elem? m.table k ≡ some e
    → e.active ≡ true
    → get_state m (pos k) ≡ e.state
unfolding get_state slot
get_state-at m k e at busy = ground (arith, at, busy)

-- Its state is what dsp_neg_get_state returns.
pub find_by_cpid_state :
    (m : Negotiations) (pid : Text) (k : ℕ)
    → find_by_cpid m (some pid) ≡ pos k
    → (e : NegEntry) × (get_elem? m.table k ≡ some e)
      × (e.active ≡ true)
      × (strncmp_eq 64 e.consumer_pid pid ≡ true)
      × (get_state m (pos k) ≡ e.state)
find_by_cpid_state m pid k found =
    let (e, at, hit) = find_by_cpid-hit m pid k found in
    let (busy, same) = &&-true e.active (strncmp_eq 64 e.consumer_pid pid) hit in
    (e, at, busy, same, get_state-at m k e at busy)
