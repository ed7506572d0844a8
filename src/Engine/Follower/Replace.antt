-- ===== src/Engine/Follower/Replace.antt =====
-- `replace_replication_suffix` of crates/engine/src/engine/core.rs.
use vaylix.Prelude.{
  ℕ, none, All, sym, ◌≤◌, ◌≡◌, ap, ◌∙◌, false, Option, List, [], ◌∷◌, ◌++◌, Result, ok, ◌>>=◌,
  >>=-eq-ok, leb, ltb, arith, keep, saturating_add,
}
use vaylix.Engine.Error.{EngineError}
use vaylix.Engine.State.{EngineState, WalEntry, replay_entries}
use vaylix.Engine.Log.{StorageEnv, Engine}
use vaylix.Engine.Follower.{
  push_all, check_prefix, collect_replacement, check_gaps, plan_replacement,
  replace_replication_suffix,
}
use vaylix.Engine.Recovery.Replay.{last_sequence}
use vaylix.Engine.Follower.Since.{last_sequence-last?}
use vaylix.Engine.Follower.Apply.{IsFrom}
use vaylix.Engine.Follower.Merge.{IsMerged, IsOverlap, retained-IsMerged, replacement-IsMerged}

check_gaps-IsFrom :
    (last : ℕ) (entries : List WalEntry)
    → check_gaps last entries ≡ ok tt
    → IsFrom (saturating_add last 1) entries
unfolding check_gaps
check_gaps-IsFrom last [] h = tt
check_gaps-IsFrom last (e ∷ entries) h =
    ground (arith, check_gaps-IsFrom (saturating_add last 1) entries)

check_prefix-anchored :
    (prefix baseline : ℕ) (retained : List WalEntry)
    → check_prefix prefix baseline retained ≡ ok tt
    → last_sequence baseline retained ≡ prefix
unfolding check_prefix
check_prefix-anchored prefix baseline retained h =
    ground (arith, last_sequence-last? baseline retained)

-- A replay of a log and its state, which are given by equations.
replay_entries-same :
    (snapshot : EngineState) (l log : List WalEntry) (s state : EngineState)
    → replay_entries l snapshot ≡ ok s
    → ◌≡◌ {A = Result EngineError (List WalEntry × EngineState)} (ok (l, s)) (ok (log, state))
    → (log ≡ l) × (replay_entries log snapshot ≡ ok state)
replay_entries-same snapshot l log s state r h = (cc, cc)

-- A log made of the old entries up to the prefix, merged, and of the requested ones above it, merged,
-- without a gap; the state of its replay. The requested entries that are neither above the prefix nor
-- in the snapshot are among the old ones.
pub record IsReplaced (env : StorageEnv) (prefix : ℕ) (snapshot : EngineState)
    (cached entries log : List WalEntry) (state : EngineState) : Type 0 where
  pub retained : List WalEntry
  pub replacement : List WalEntry
  pub parts : log ≡ retained ++ replacement
  pub kept : IsMerged env none (keep (λ e. leb e.sequence prefix) cached) retained
  pub taken : IsMerged env none (keep (λ e. ltb prefix e.sequence) entries) replacement
  pub overlaps : All (IsOverlap env prefix snapshot.metadata.last_applied_sequence retained) entries
  pub anchored : last_sequence snapshot.metadata.last_applied_sequence retained ≡ prefix
  pub gapless : IsFrom (saturating_add prefix 1) replacement
  pub replayed : replay_entries log snapshot ≡ ok state
  pub covered : snapshot.metadata.last_applied_sequence ≤ prefix

module _ (env : StorageEnv) (prefix : ℕ) (snapshot : EngineState) where
  plan_replacement-IsReplaced :
      (entries cached log : List WalEntry) (state : EngineState)
      → plan_replacement env prefix entries snapshot cached ≡ ok (log, state)
      → IsReplaced env prefix snapshot cached entries log state
  unfolding plan_replacement
  plan_replacement-IsReplaced entries cached log state h =
      let baseline = snapshot.metadata.last_applied_sequence in
      let plan : List WalEntry → List WalEntry → Result EngineError (List WalEntry × EngineState) =
        λ retained replacement. replay_entries (retained ++ replacement) snapshot >>= λ state.
        ok (retained ++ replacement, state) in
      let kept : List WalEntry = keep (λ e. leb e.sequence prefix) cached in
      let inside : (ltb prefix baseline) ≡ false = ground arith in
      let (retained, p, h₁) =
        >>=-eq-ok (push_all env [] kept)
          (λ retained. check_prefix prefix baseline retained >>= λ _.
            collect_replacement env prefix baseline retained [] entries >>= λ replacement.
            check_gaps prefix replacement >>= λ _. plan retained replacement)
          (rw (inside) at h) in
      let (_, q, h₂) =
        >>=-eq-ok (check_prefix prefix baseline retained)
          (λ _. collect_replacement env prefix baseline retained [] entries >>= λ replacement.
            check_gaps prefix replacement >>= λ _. plan retained replacement)
          h₁ in
      let (replacement, c, h₃) =
        >>=-eq-ok (collect_replacement env prefix baseline retained [] entries)
          (λ replacement. check_gaps prefix replacement >>= λ _. plan retained replacement) h₂ in
      let (_, g, h₄) =
        >>=-eq-ok (check_gaps prefix replacement) (λ _. plan retained replacement) h₃ in
      let (t, r, h₅) =
        >>=-eq-ok (replay_entries (retained ++ replacement) snapshot)
          (λ state. ok (retained ++ replacement, state)) h₄ in
      let (parts, replayed) =
        replay_entries-same snapshot (retained ++ replacement) log t state r h₅ in
      let (taken, overlaps) =
        replacement-IsMerged env prefix baseline retained replacement entries c in
      record {
        retained = retained;
        replacement = replacement;
        parts = parts;
        kept = retained-IsMerged env retained kept p;
        taken = taken;
        overlaps = overlaps;
        anchored = check_prefix-anchored prefix baseline retained q;
        gapless = check_gaps-IsFrom prefix replacement g;
        replayed = replayed;
        covered = ground arith;
      }

replace_replication_suffix-planned :
    (env : StorageEnv) (rewrite : List WalEntry → Option EngineError) (prefix : ℕ)
    (entries : List WalEntry) (snapshot : EngineState) (engine : Engine) (n : ℕ)
    → (replace_replication_suffix env rewrite prefix entries snapshot engine).0 ≡ ok n
    → (log : List WalEntry) × (state : EngineState) × (plan_replacement env prefix entries snapshot
          engine.wal_entries
        ≡ ok (log, state))
      × ((replace_replication_suffix env rewrite prefix entries snapshot engine).1.wal_entries
          ≡ log)
      × ((replace_replication_suffix env rewrite prefix entries snapshot engine).1.state ≡ state)
      × (n ≡ state.metadata.last_applied_sequence)
unfolding replace_replication_suffix
replace_replication_suffix-planned env rewrite prefix entries snapshot engine n h = ground arith

-- When the suffix of a log is replaced, the new log is the old one up to the prefix, where it ends, and
-- the requested entries above the prefix, which follow it without a gap; entries that repeat the one
-- before are left out of both. The requested entries up to the prefix are retained ones, unless the
-- snapshot has them. The engine is in the state of the replay of the new log on the snapshot, and
-- answers its sequence.
pub replace_replication_suffix-IsReplaced :
    (env : StorageEnv) (rewrite : List WalEntry → Option EngineError) (prefix : ℕ)
    (entries : List WalEntry) (snapshot : EngineState) (engine : Engine) (n : ℕ)
    → (replace_replication_suffix env rewrite prefix entries snapshot engine).0 ≡ ok n
    → IsReplaced env prefix snapshot engine.wal_entries entries
        (replace_replication_suffix env rewrite prefix entries snapshot engine).1.wal_entries
        (replace_replication_suffix env rewrite prefix entries snapshot engine).1.state
      × (n
          ≡ (replace_replication_suffix env rewrite prefix entries snapshot
              engine).1.state.metadata.last_applied_sequence)
replace_replication_suffix-IsReplaced env rewrite prefix entries snapshot engine n h =
    let (log, state, p, w, s, m) =
      replace_replication_suffix-planned env rewrite prefix entries snapshot engine n h in
    let good : IsReplaced env prefix snapshot engine.wal_entries entries log state =
      plan_replacement-IsReplaced env prefix snapshot entries engine.wal_entries log state p in
    (rw (w, s) good, m ∙ ap (λ t. t.metadata.last_applied_sequence) (sym s))
