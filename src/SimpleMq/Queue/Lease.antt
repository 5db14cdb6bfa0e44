-- ===== src/SimpleMq/Queue/Lease.antt =====
-- While a received message is hidden, no receive returns it again.
use sakumock.SimpleMq.Queue.{
  before, Time, Duration, StoredMessage, is_expired, is_hidden, receive_loop, extend_loop,
  delete_loop, unexpired,
}
use mathlib.Core.Path.{subst}
use sakumock.SimpleMq.Queue.Delivery.{receive_loop-passes, receive_loop-takes}
use sakumock.Prelude.{
  ◌+◌, ◌<◌, ◌≤◌, ◌≡◌, ◌≢◌, sym, ◌∙◌, String, List, [], ◌∷◌, some, inl, inr, arith, All, ◌||◌,
  Bool-cases, All-map, str_eq,
}

-- Every message has an ID of its own.
abbrev pub DistinctIds : List StoredMessage → Type 0
DistinctIds [] = Unit
DistinctIds (m ∷ ms) = All (λ x. m.id ≢ x.id) ms × DistinctIds ms

-- A message of this ID is hidden until the time `u`.
abbrev pub Leased : Time → String → StoredMessage → Type 0
Leased u id m = m.id ≡ id → u ≤ m.visibility_timeout_at

module _ (vt : Duration) (now : Time) where
  -- What receive returns has the ID of a message of the queue.
  found_id :
      (P : String → Type 0) (ms : List StoredMessage) (m : StoredMessage)
      → (receive_loop vt now ms).1 ≡ some m
      → All (λ x. P x.id) ms
      → P m.id
  found_id P [] m h all = unfold receive_loop in cc
  found_id P (x ∷ ms) m h all = elim (Bool-cases (is_expired now x || is_hidden now x)) [
    | inl pass ↦ found_id P ms m (rw (receive_loop-passes vt now x ms pass) at h) all.1
    | inr take ↦ subst P (cc (rw (receive_loop-takes vt now x ms take) at h)) all.0
  ]

  -- receive hides the message that it returns.
  pub receive_loop-leases :
      (ms : List StoredMessage) (m : StoredMessage)
      → DistinctIds ms
      → (receive_loop vt now ms).1 ≡ some m
      → All (Leased (now + vt) m.id) (receive_loop vt now ms).0
  receive_loop-leases [] m d h = unfold receive_loop in tt
  receive_loop-leases (x ∷ ms) m d h = elim (Bool-cases (is_expired now x || is_hidden now x)) [
    | inl pass ↦
        let later = rw (receive_loop-passes vt now x ms pass) at h in
        rw (receive_loop-passes vt now x ms pass) (
          λ e. absurd (found_id (λ id. x.id ≢ id) ms m later d.0 e),
          receive_loop-leases ms m d.1 later,
        )
    | inr take ↦
        let found = rw (receive_loop-takes vt now x ms take) at h in
        let same : m.id ≡ x.id = cc found in
        rw (receive_loop-takes vt now x ms take)
          (λ e. omega arith, All-map ms (λ y ne e. absurd (ne (sym (e ∙ same)))) d.0)
  ]

module _ (u : Time) (id : String) where
  -- A later receive leaves the lease as it is, and returns another message.
  pub receive_loop-keeps :
      (vt : Duration) (now : Time) (ms : List StoredMessage)
      → u ≤ now + vt
      → All (Leased u id) ms
      → All (Leased u id) (receive_loop vt now ms).0
  receive_loop-keeps vt now [] le h = unfold receive_loop in tt
  receive_loop-keeps vt now (x ∷ ms) le h =
      elim (Bool-cases (is_expired now x || is_hidden now x)) [
        | inl pass ↦
            rw (receive_loop-passes vt now x ms pass) (h.0, receive_loop-keeps vt now ms le h.1)
        | inr take ↦ rw (receive_loop-takes vt now x ms take) (λ e. le, h.1)
      ]

  pub receive_loop-other :
      (vt : Duration) (now : Time) (ms : List StoredMessage) (m : StoredMessage)
      → now < u
      → All (Leased u id) ms
      → (receive_loop vt now ms).1 ≡ some m
      → m.id ≢ id
  receive_loop-other vt now [] m lt h e = unfold receive_loop in cc
  receive_loop-other vt now (x ∷ ms) m lt h e =
      elim (Bool-cases (is_expired now x || is_hidden now x)) [
        | inl pass ↦
            receive_loop-other vt now ms m lt h.1 (rw (receive_loop-passes vt now x ms pass) at e)
        | inr take ↦
            let found = rw (receive_loop-takes vt now x ms take) at e in
            let same : m.id ≡ x.id = cc found in λ eq. let low = h.0 (sym same ∙ eq) in ground arith
      ]

  pub extend_loop-keeps :
      (vt : Duration) (now : Time) (other : String) (ms : List StoredMessage)
      → u ≤ now + vt
      → All (Leased u id) ms
      → All (Leased u id) (extend_loop vt now other ms).0
  unfolding extend_loop
  extend_loop-keeps vt now other [] le h = tt
  extend_loop-keeps vt now other (x ∷ ms) le h = elim (Bool-cases (str_eq x.id other)) [
    | inl here ↦ rw here (λ e. le, h.1)
    | inr there ↦ rw there (h.0, extend_loop-keeps vt now other ms le h.1)
  ]

module _ (P : StoredMessage → Type 0) where
  pub delete_loop-All :
      (id : String) (ms : List StoredMessage) → All P ms → All P (delete_loop id ms).0
  unfolding delete_loop
  delete_loop-All id [] h = tt
  delete_loop-All id (x ∷ ms) h = elim (Bool-cases (str_eq x.id id)) [
    | inl here ↦ rw here h.1
    | inr there ↦ rw there (h.0, delete_loop-All id ms h.1)
  ]

  pub unexpired-All : (now : Time) (ms : List StoredMessage) → All P ms → All P (unexpired now ms)
  unfolding unexpired
  unexpired-All now [] h = tt
  unexpired-All now (x ∷ ms) h = elim (Bool-cases (before now x.expires_at)) [
    | inl keep ↦ rw keep (h.0, unexpired-All now ms h.1)
    | inr drop ↦ rw drop (unexpired-All now ms h.1)
  ]
