-- ===== src/SimpleMq/Store/Control/Consistency.antt =====
-- The registry of the control plane: its two maps agree, and its IDs lie below the generator's.
use sakumock.Core.Decimal.{format_int}
use sakumock.Core.Decimal.RoundTrip.{format_int-injective}
use sakumock.Dict
use sakumock.Dict.{Dict, get-put_self, get-put_ne, get-put_cases, get-remove_ne, get-remove_cases}
use sakumock.SimpleMq.Queue.{Duration}
use sakumock.SimpleMq.Store.{StoredQueue, MemoryStore}
use sakumock.SimpleMq.Store.Control.{apply_settings}
use sakumock.Prelude.{
  ℕ, ◌+◌, ◌<◌, ◌≡◌, sym, ◌∙◌, String, none, some, ℤ, pos, max_int64, arith, string_eq, eq_iff, inl,
  inr, Option-cases, Bool-cases, str_eq, str_ne,
}

-- What the control plane keeps of its queues.
pub record Registry : Type 0 where
  pub resources : Dict String StoredQueue
  pub by_name : Dict String String
  pub next : ℤ

abbrev pub registry : MemoryStore → Registry
registry s = record { resources = s.queue_resources; by_name = s.queue_by_name; next = s.ids.next }

-- Each resource stands under its own ID and is the one of its name; each name leads to a resource
-- of that name; each ID is the text of a number below the next one of the generator, `n`.
pub record IsConsistent (n : ℕ) (r : Registry) : Type 0 where
  pub named :
      (id : String) (q : StoredQueue)
      → Dict.get r.resources id ≡ some q
      → (q.id ≡ id) × (Dict.get r.by_name q.name ≡ some id)
  pub indexed :
      (name id : String)
      → Dict.get r.by_name name ≡ some id
      → (q : StoredQueue) × (Dict.get r.resources id ≡ some q) × (q.name ≡ name)
  pub below :
      (id : String) (q : StoredQueue)
      → Dict.get r.resources id ≡ some q
      → (k : ℕ) × (id ≡ format_int (pos k)) × (k < n)
  pub live : r.next ≡ pos n

pub registry-apply_settings :
    (s : MemoryStore) (name : String) (vt me : Duration)
    → registry (apply_settings s name vt me) ≡ registry s
unfolding apply_settings
registry-apply_settings s name vt me = elim (Option-cases (Dict.get s.queues name)) [
  | inl missing ↦ rw (apply_settings, missing)
  | inr (q, found) ↦ rw (apply_settings, found)
]

module _ (r : Registry) (n : ℕ) (c : IsConsistent n r) (small : n < max_int64) where
  new_id :
      (id : String) (p : StoredQueue)
      → Dict.get r.resources id ≡ some p
      → {new : String} → new ≡ format_int (pos n)
      → ¬ (new ≡ id)
  new_id id p there e eq =
      let (k, text, lt) = c.below id p there in
      absurd
        (omega (arith, format_int-injective n k (omega arith) (omega arith) (sym e ∙ eq ∙ text)))

  -- A new resource, under a name that is not taken.
  pub register-IsConsistent :
      (q : StoredQueue) (next : ℤ)
      → q.id ≡ format_int (pos n)
      → Dict.get r.by_name q.name ≡ none
      → next ≡ pos (n + 1)
      → IsConsistent (n + 1) (record {
        resources = Dict.put r.resources q.id q;
        by_name = Dict.put r.by_name q.name q.id;
        next = next;
      })
  register-IsConsistent q next e free live = record {
    named = λ id p h. elim (get-put_cases r.resources q.id id q p h) [
      | inl (here, same) ↦ (cc (here, same), cc (here, same, get-put_self r.by_name q.name q.id))
      | inr (other, old) ↦ (
        (c.named id p old).0,
        get-put_ne r.by_name q.name p.name q.id (λ eq. cc (eq, free, (c.named id p old).1))
            ∙ (c.named id p old).1,
      )
    ];
    indexed = λ name id h. elim (get-put_cases r.by_name q.name name q.id id h) [
      | inl (here, same) ↦ (q, cc (same, get-put_self r.resources q.id q), here)
      | inr (other, old) ↦
          let (p, there, name_of) = c.indexed name id old in
          (p, get-put_ne r.resources q.id id q (new_id id p there e) ∙ there, name_of)
    ];
    below = λ id p h. elim (get-put_cases r.resources q.id id q p h) [
      | inl (here, same) ↦ (n, sym here ∙ e, omega arith)
      | inr (other, old) ↦ let (k, text, lt) = c.below id p old in (k, text, omega arith)
    ];
    live = live;
  }

module _ (r : Registry) (n : ℕ) (c : IsConsistent n r) where
  -- Another value for a resource that keeps its ID and its name.
  pub replace-IsConsistent :
      (id : String) (q q' : StoredQueue)
      → Dict.get r.resources id ≡ some q
      → q'.id ≡ q.id
      → q'.name ≡ q.name
      → IsConsistent n (record r { resources = Dict.put r.resources id q' })
  replace-IsConsistent id q q' there same_id same_name = record {
    named = λ j p h. elim (get-put_cases r.resources id j q' p h) [
      | inl (here, same) ↦ (
        cc (here, same, same_id, (c.named id q there).0),
        cc (here, same, same_name, (c.named id q there).1),
      )
      | inr (other, old) ↦ c.named j p old
    ];
    indexed = λ name j h.
        let (p, found, name_of) = c.indexed name j h in
        elim (Bool-cases (str_eq id j)) [
          | inl same ↦
              let here = (eq_iff id j).0 same in
              (
                q',
                cc (here, get-put_self r.resources id q'),
                cc (here, there, found, same_name, name_of),
              )
          | inr other ↦ (p, get-put_ne r.resources id j q' (str_ne id j other) ∙ found, name_of)
        ];
    below = λ j p h. elim (get-put_cases r.resources id j q' p h) [
      | inl (here, same) ↦ let (k, text, lt) = c.below id q there in (k, sym here ∙ text, lt)
      | inr (other, old) ↦ c.below j p old
    ];
    live = c.live;
  }

  pub unregister-IsConsistent :
      (id : String) (q : StoredQueue)
      → Dict.get r.resources id ≡ some q
      → IsConsistent n (record r {
        resources = Dict.remove r.resources id;
        by_name = Dict.remove r.by_name q.name;
      })
  unregister-IsConsistent id q there = record {
    named = λ j p h.
        let (other, old) = get-remove_cases r.resources id j p h in
        let (own, indexed) = c.named j p old in
        (
          own,
          get-remove_ne r.by_name q.name p.name
                (λ eq. other (cc (eq, indexed, (c.named id q there).1)))
              ∙ indexed,
        );
    indexed = λ name j h.
        let (other, old) = get-remove_cases r.by_name q.name name j h in
        let (p, found, name_of) = c.indexed name j old in
        (
          p,
          get-remove_ne r.resources id j (λ eq. other (cc (eq, found, there, name_of))) ∙ found,
          name_of,
        );
    below = λ j p h. c.below j p (get-remove_cases r.resources id j p h).1;
    live = c.live;
  }
