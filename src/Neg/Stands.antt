-- ===== src/Neg/Stands.antt =====
-- The one negotiation of a consumer PID in the slot table of dsp_neg.c, from its creation on.
use dsp_embedded.Prelude.{
  ℕ, ◌<◌, ◌≡◌, ◌≢◌, refl, ap, ◌∙◌, true, none, some, arith, get_elem?, length, take, take_of_le,
  get_elem?-lt, get_elem?-set_self, find_index, find_index-set, find_index-set_only, Text,
  strcmp_eq_refl, strncmp_eq, ℤ, pos, negsuc, index_or_minus_one,
}
use dsp_embedded.Neg.{
  NegState, requested, NegEvent, NegEntry, Negotiations, has_cpid, find_by_cpid, get_state, slot,
  apply, sm_next, fresh_entry, count_active,
}
use dsp_embedded.Neg.Slots.{Creates, full, takes, apply-at}

-- The search for `pid` finds slot `i`, and the negotiation there is in use and in state `s`.
pub record Stands (m : Negotiations) (pid : Text) (i : ℕ) (s : NegState) : Type 0 where
  pub entry : NegEntry
  pub found : find_index (has_cpid pid) m.table ≡ some i
  pub there : get_elem? m.table i ≡ some entry
  pub in_use : entry.active ≡ true
  pub named : strncmp_eq 64 entry.consumer_pid pid ≡ true
  pub in_state : entry.state ≡ s

pub Stands-find_by_cpid :
    {m : Negotiations} {pid : Text} {i : ℕ} {s : NegState}
    → Stands m pid i s
    → find_by_cpid m (some pid) ≡ pos i
unfolding find_by_cpid
Stands-find_by_cpid st = ap index_or_minus_one st.found

pub Stands-get_state :
    {m : Negotiations} {pid : Text} {i : ℕ} {s : NegState}
    → Stands m pid i s
    → get_state m (pos i) ≡ s
unfolding get_state slot
Stands-get_state st = ground (arith, st.there, st.in_use, st.in_state)

-- What `dsp_neg_create` returned is an index, and the negotiation stands there.
abbrev pub StandsNew : ℤ × Negotiations → Text → Type 0
StandsNew (negsuc n, m) pid = ⊥
StandsNew (pos i, m) pid = Stands m pid i requested

-- A new negotiation of a PID that none has.
pub Creates-StandsNew :
    {m : Negotiations} (pid ppid : Text) {r : ℤ × Negotiations}
    → find_index (has_cpid pid) m.table ≡ none
    → length pid < 64
    → count_active m ≢ length m.table
    → Creates m (fresh_entry pid ppid) r
    → StandsNew r pid
Creates-StandsNew pid ppid new fits room (full n) = absurd (room n)
Creates-StandsNew {m = m} pid ppid new fits room (takes i old at free before) =
    let lt = get_elem?-lt m.table i at in
    let short : take 63 pid ≡ pid = take_of_le 63 pid (omega (arith, fits)) in
    let same : strncmp_eq 64 (take 63 pid) pid ≡ true =
      ap (λ t. strncmp_eq 64 t pid) short ∙ strcmp_eq_refl (take 64 pid) in
    record {
      entry = fresh_entry pid ppid;
      found = find_index-set_only (has_cpid pid) m.table i (fresh_entry pid ppid) new lt same;
      there = get_elem?-set_self m.table i (fresh_entry pid ppid) lt;
      in_use = refl;
      named = same;
      in_state = refl;
    }

-- An event at its slot moves it on.
pub apply-Stands :
    {m : Negotiations} {pid : Text} {i : ℕ} {s : NegState} (event : NegEvent)
    → Stands m pid i s
    → Stands (apply m (pos i) event).1 pid i (sm_next s event)
      × ((apply m (pos i) event).0 ≡ sm_next s event)
apply-Stands {m = m} {pid = pid} {i = i} event st =
    let e' : NegEntry = record st.entry { state = sm_next st.entry.state event } in
    let at = apply-at m i event st.entry st.there st.in_use in
    let hit : has_cpid pid e' ≡ true = ground (arith, st.in_use, st.named) in
    (
      rw at (record {
        entry = e';
        found = find_index-set (has_cpid pid) m.table i e' st.found hit;
        there = get_elem?-set_self m.table i e' (get_elem?-lt m.table i st.there);
        in_use = st.in_use;
        named = st.named;
        in_state = ap (λ s. sm_next s event) st.in_state;
      }),
      ap (λ r. r.0) at ∙ ap (λ s. sm_next s event) st.in_state,
    )
