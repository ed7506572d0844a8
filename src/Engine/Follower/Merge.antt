-- ===== src/Engine/Follower/Merge.antt =====
-- The lists that crates/engine/src/engine/core.rs builds with `push_unique_wal_entry`: the entries in
-- their order, without those that repeat the one before.
use vaylix.Prelude.{
  ℕ, ◌≤◌, ◌<◌, ◌≡◌, ◌⊎◌, inl, inr, refl, sym, ap, ◌∙◌, true, false, not, Bool-cases, Option, none,
  some, List, [], ◌∷◌, ◌++◌, append_assoc, append-nil, ok, err, ◌>>=◌, ◌>>◌, >>=-eq-ok, leb, ltb,
  ◌==◌, arith, keep, last?, All, if◌then◌else◌,
}
use mathlib.Core.List.{Memᴰ}
use vaylix.Engine.Error.{invalid_storage_operation, conflicting_duplicate, overlap_mismatch}
use vaylix.Engine.State.{WalEntry}
use vaylix.Engine.Log.{StorageEnv}
use vaylix.Engine.Follower.{
  differ, push_unique_wal_entry, push_all, find_sequence, check_overlap, collect_replacement,
}

-- Entries of one sequence, term and checksum.
pub record IsSame (env : StorageEnv) (a b : WalEntry) : Type 0 where
  pub sequence : a.sequence ≡ b.sequence
  pub term : a.term ≡ b.term
  pub crc : ℕ
  pub left : env.checksum a ≡ ok crc
  pub right : env.checksum b ≡ ok crc

abbrev pub IsAbove : Option WalEntry → WalEntry → Type 0
IsAbove none e = Unit {0}
IsAbove (some x) e = x.sequence < e.sequence

-- The entries, and what is left of them behind the last entry that was taken.
pub data IsMerged (env : StorageEnv)
    : Option WalEntry → List WalEntry → List WalEntry → Type 0 where
  stop : {last : Option WalEntry} → IsMerged env last [] []
  fresh :
      {last : Option WalEntry} {e : WalEntry} {es out : List WalEntry}
      → IsAbove last e
      → IsMerged env (some e) es out
      → IsMerged env last (e ∷ es) (e ∷ out)
  again :
      {x e : WalEntry} {es out : List WalEntry}
      → IsSame env e x
      → IsMerged env (some x) es out
      → IsMerged env (some x) (e ∷ es) out

-- An entry above the baseline and not above the prefix is one of the retained ones.
abbrev pub IsOverlap : StorageEnv → ℕ → ℕ → List WalEntry → WalEntry → Type 0
IsOverlap env prefix baseline retained e =
    e.sequence ≤ prefix
    → baseline < e.sequence
    → (local : WalEntry) × Memᴰ local retained × IsSame env local e

last?-snoc : (out : List WalEntry) (e : WalEntry) → last? (out ++ (e ∷ [])) ≡ some e
unfolding last?
last?-snoc [] e = refl
last?-snoc (a ∷ []) e = refl
last?-snoc (a ∷ b ∷ out) e = last?-snoc (b ∷ out) e

module _ (env : StorageEnv) where
  differ-IsSame :
      (a b : WalEntry) → a.sequence ≡ b.sequence → differ env a b ≡ ok false → IsSame env a b
  unfolding differ
  differ-IsSame a b s h = elim (Bool-cases (a.term == b.term)) [
    | inl t ↦
        let (x, p, k) =
          >>=-eq-ok (env.checksum a) (λ x. env.checksum b >>= λ y. ok (not (x == y)))
            (rw (t) at h) in
        let (y, q, k') = >>=-eq-ok (env.checksum b) (λ y. ok (not (x == y))) k in
        let same : x ≡ y = ground (arith, k') in
        record { sequence = s; term = ground (arith, t); crc = x; left = p; right = rw (same) q }
    | inr t ↦ absurd (ground (arith, t, h))
  ]

  -- The two ways in which a push succeeds.
  pub push_unique-cases :
      (out out' : List WalEntry) (e : WalEntry)
      → push_unique_wal_entry env out e ≡ ok out'
      → ((out' ≡ out ++ (e ∷ [])) × IsAbove (last? out) e)
        ⊎ ((x : WalEntry) × (last? out ≡ some x) × IsSame env e x × (out' ≡ out))
  unfolding push_unique_wal_entry
  push_unique-cases out out' e h = by_last (last? out) refl h
    where
      by_last :
          (o : Option WalEntry)
          → last? out ≡ o
          → push_unique_wal_entry env out e ≡ ok out'
          → ((out' ≡ out ++ (e ∷ [])) × IsAbove o e)
            ⊎ ((x : WalEntry) × (o ≡ some x) × IsSame env e x × (out' ≡ out))
      by_last none p k = inl (ground (arith, p, k), tt)
      by_last (some x) p k = elim (Bool-cases (ltb e.sequence x.sequence)) [
        | inl low ↦ absurd (ground (arith, p, low, k))
        | inr up ↦ elim (Bool-cases (e.sequence == x.sequence)) [
          | inl same ↦
              let (d, seen, kept) =
                >>=-eq-ok (differ env e x)
                  (λ d.
                    if d
                    then err (invalid_storage_operation (conflicting_duplicate e.sequence))
                    else ok out)
                  (rw (p, up, same, push_unique_wal_entry) at k) in
              let equal : d ≡ false = ground (arith, kept) in
              inr (
                x,
                refl,
                differ-IsSame e x (ground (arith, same)) (rw (equal) at seen),
                ground (arith, equal, kept),
              )
          | inr other ↦ inl (ground (arith, p, up, other, k), ground (arith, up, other))
        ]
      ]

  -- One more entry in front of a merge.
  pushed :
      (out mid : List WalEntry) (e : WalEntry) (entries all new : List WalEntry)
      → push_unique_wal_entry env out e ≡ ok mid
      → all ≡ mid ++ new
      → IsMerged env (last? mid) entries new
      → (new' : List WalEntry) × (all ≡ out ++ new') × IsMerged env (last? out) (e ∷ entries) new'
  pushed out mid e entries all new p parts merged = elim (push_unique-cases out mid e p) [
    | inl (grown, above) ↦ (
      e ∷ new,
      parts ∙ ap (λ o. o ++ new) grown ∙ append_assoc out (e ∷ []) new,
      fresh above (rw (grown, last?-snoc out e) at merged),
    )
    | inr (x, last, same, kept) ↦
        (new, parts ∙ ap (λ o. o ++ new) kept, rw (last) (again same (rw (kept, last) at merged)))
  ]

  push_all-IsMerged :
      (out all : List WalEntry) (entries : List WalEntry)
      → push_all env out entries ≡ ok all
      → (new : List WalEntry) × (all ≡ out ++ new) × IsMerged env (last? out) entries new
  unfolding push_all
  push_all-IsMerged out all [] h =
      let same : out ≡ all = cc in ([], sym same ∙ sym (append-nil out), stop)
  push_all-IsMerged out all (e ∷ entries) h =
      let (mid, p, q) =
        >>=-eq-ok (push_unique_wal_entry env out e) (λ o. push_all env o entries) h in
      let (new, parts, merged) = push_all-IsMerged mid all entries q in
      pushed out mid e entries all new p parts merged

  find_sequence-Memᴰ :
      (n : ℕ) (entries : List WalEntry) {local : WalEntry}
      → find_sequence n entries ≡ some local
      → Memᴰ local entries × (local.sequence ≡ n)
  unfolding find_sequence
  find_sequence-Memᴰ n [] h = cc
  find_sequence-Memᴰ n (a ∷ entries) {local} h = elim (Bool-cases (a.sequence == n)) [
    | inl here ↦
        let same : local ≡ a = ground (arith, here, h) in
        (Memᴰ.head same, ap (λ (x : WalEntry). x.sequence) same ∙ ground (arith, here))
    | inr other ↦
        let (found, at) = find_sequence-Memᴰ n entries (ground (arith, other, h)) in
        (Memᴰ.tail found, at)
  ]

  check_overlap-IsOverlap :
      (prefix baseline : ℕ) (retained : List WalEntry) (e : WalEntry)
      → check_overlap env baseline retained e ≡ ok tt
      → IsOverlap env prefix baseline retained e
  unfolding check_overlap
  check_overlap-IsOverlap prefix baseline retained e h low high =
      by_local (find_sequence e.sequence retained) refl
    where
      by_local :
          (o : Option WalEntry)
          → find_sequence e.sequence retained ≡ o
          → (local : WalEntry) × Memᴰ local retained × IsSame env local e
      by_local none p = absurd (ground (arith, p, h, high))
      by_local (some local) p =
          let (found, at) = find_sequence-Memᴰ e.sequence retained p in
          let above : leb e.sequence baseline ≡ false = ground (arith, high) in
          let (d, seen, kept) =
            >>=-eq-ok (differ env local e)
              (λ d.
                if d then err (invalid_storage_operation (overlap_mismatch e.sequence)) else ok tt)
              (rw (above, p, check_overlap) at h) in
          let equal : d ≡ false = ground (arith, kept) in
          (local, found, differ-IsSame local e at (rw (equal) at seen))

  -- The entries of the request above the prefix are merged; those up to it are retained ones.
  collect_replacement-IsMerged :
      (prefix baseline : ℕ) (retained out all : List WalEntry) (entries : List WalEntry)
      → collect_replacement env prefix baseline retained out entries ≡ ok all
      → ((new : List WalEntry) × (all ≡ out ++ new)
          × IsMerged env (last? out) (keep (λ e. ltb prefix e.sequence) entries) new)
        × All (IsOverlap env prefix baseline retained) entries
  unfolding collect_replacement
  collect_replacement-IsMerged prefix baseline retained out all [] h =
      let same : out ≡ all = cc in (([], sym same ∙ sym (append-nil out), stop), tt)
  collect_replacement-IsMerged prefix baseline retained out all (e ∷ entries) h =
      elim (Bool-cases (leb e.sequence prefix)) [
        | inl low ↦
            let (mid, checked, rest) =
              >>=-eq-ok (check_overlap env baseline retained e >> ok out)
                (λ o. collect_replacement env prefix baseline retained o entries)
                (rw (low, collect_replacement) at h) in
            let (_, overlap, kept) =
              >>=-eq-ok (check_overlap env baseline retained e) (λ _. ok out) checked in
            let (merged, overlaps) =
              collect_replacement-IsMerged prefix baseline retained mid all entries rest in
            let same : mid ≡ out = cc in
            let below : ltb prefix e.sequence ≡ false = ground (arith, low) in
            (
              rw (below, keep) (rw (same) at merged),
              (check_overlap-IsOverlap prefix baseline retained e overlap, overlaps),
            )
        | inr high ↦
            let (mid, p, rest) =
              >>=-eq-ok (push_unique_wal_entry env out e)
                (λ o. collect_replacement env prefix baseline retained o entries)
                (rw (high, collect_replacement) at h) in
            let ((new, parts, merged), overlaps) =
              collect_replacement-IsMerged prefix baseline retained mid all entries rest in
            let above : ltb prefix e.sequence ≡ true = ground (arith, high) in
            (
              rw (above, keep) (pushed out mid e _ all new p parts merged),
              ((λ low. absurd (ground (arith, high, low))), overlaps),
            )
      ]

  pub retained-IsMerged :
      (all entries : List WalEntry)
      → push_all env [] entries ≡ ok all
      → IsMerged env none entries all
  unfolding last?
  retained-IsMerged all entries h =
      let (new, parts, merged) = push_all-IsMerged [] all entries h in rw (parts) merged

  pub replacement-IsMerged :
      (prefix baseline : ℕ) (retained all entries : List WalEntry)
      → collect_replacement env prefix baseline retained [] entries ≡ ok all
      → IsMerged env none (keep (λ e. ltb prefix e.sequence) entries) all
        × All (IsOverlap env prefix baseline retained) entries
  unfolding last?
  replacement-IsMerged prefix baseline retained all entries h =
      let ((new, parts, merged), overlaps) =
        collect_replacement-IsMerged prefix baseline retained [] all entries h in
      (rw (parts) merged, overlaps)
