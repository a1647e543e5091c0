-- ===== src/Job/Validity.antt =====
-- internal/domain/job/queue.go: what the queue keeps true, and what comes out of it.
use route_analysis_service.Prelude.{
  flag, String, List, [], ◌∷◌, ◌++◌, length, length-perm, any, any-perm, Bool, true, false, ◌==◌,
  if◌then◌else◌, ℤ, pos, leb_ℤ, ◌≤ℤ◌, Map, lookup, insert, delete, lookup-insert, lookup-delete,
  Option, none, some, stable_sort, StrictWeak, stable_sort-IsSorted, stable_sort-perm, IsSorted,
  All, All-perm, ◌≡◌, refl, sym, subst, ◌∙◌, arith, Bool-cases, inl, inr,
}
use text.Mathlib.TextEquality.{eq_iff}
use mathlib.Core.List.{Permᴰ}
use mathlib.Core.List.Permᴰ
use route_analysis_service.Model.Error.{ok}
use route_analysis_service.Job.Queue.{
  Envelope, Queue, new_queue, envelope_first, len, contains, push, pop,
}

-- What a push and a pop are asked to do, in any order.
pub data Op (F : Type 0) : Type 0 where
  pushed : Envelope F → Op F
  popped : Op F

module _ {F : Type 0} where
  -- Envelopes of two jobs.
  abbrev pub Apart : Envelope F → Envelope F → Type 0
  Apart a b = (a.job.id == b.job.id) ≡ false

  abbrev pub AllApart : List (Envelope F) → Type 0
  AllApart [] = Unit
  AllApart (e ∷ es) = All (Apart e) es × AllApart es

  abbrev pub queued : String → List (Envelope F) → Bool
  queued id es = any (λ e. e.job.id == id) es

  -- The queue is in order and within its limit, has a job once, and knows the jobs that it has.
  pub record IsValid (q : Queue F) : Type 0 where
    pub sorted : IsSorted envelope_first q.items
    pub apart : AllApart q.items
    pub known : (id : String) → contains q id ≡ queued id q.items
    pub bounded : pos (length q.items) ≤ℤ q.limit

  envelope_first-StrictWeak : StrictWeak (envelope_first {F = F})
  unfolding envelope_first
  envelope_first-StrictWeak = record {
    asymm = λ a b h. ground arith;
    le_trans = λ a b c h k. ground arith;
  }

  Apart-sym : (a b : Envelope F) → Apart a b → Apart b a
  Apart-sym a b h = ground (arith, eq_iff a.job.id b.job.id, eq_iff b.job.id a.job.id)

  AllApart-perm : {xs ys : List (Envelope F)} → Permᴰ xs ys → AllApart xs → AllApart ys
  AllApart-perm Permᴰ.nil h = tt
  AllApart-perm (Permᴰ.cons {a} {l₂ = ys} e p) h =
      (subst (λ x. All (Apart x) ys) e (All-perm (Apart a) p h.0), AllApart-perm p h.1)
  AllApart-perm (Permᴰ.swap {a} {b} {a'} {b'} {l} e f) h =
      subst (λ x. AllApart (a' ∷ x ∷ l)) e
        (subst (λ y. AllApart (y ∷ a ∷ l)) f ((Apart-sym a b h.0.0, h.1.0), (h.0.1, h.1.1)))
  AllApart-perm (Permᴰ.trans p q) h = AllApart-perm q (AllApart-perm p h)

  queued_none :
      (e : Envelope F) (es : List (Envelope F)) → All (Apart e) es → queued e.job.id es ≡ false
  unfolding any
  queued_none e [] h = refl
  queued_none e (x ∷ es) h = ground (arith, queued_none e es h.1, Apart-sym e x h.0)

  Apart-of_queued :
      (e : Envelope F) (es : List (Envelope F)) → queued e.job.id es ≡ false → All (Apart e) es
  unfolding any
  Apart-of_queued e [] h = tt
  Apart-of_queued e (x ∷ es) h = (Apart-sym x e (ground arith), Apart-of_queued e es (ground arith))

  snoc_perm : (e : Envelope F) (es : List (Envelope F)) → Permᴰ (e ∷ es) (es ++ (e ∷ []))
  snoc_perm e [] = Permᴰ.refl (e ∷ [])
  snoc_perm e (x ∷ es) = Permᴰ.trans (Permᴰ.swap refl refl) (Permᴰ.cons refl (snoc_perm e es))

  pub pushed_perm :
      (e : Envelope F) (es : List (Envelope F))
      → Permᴰ (e ∷ es) (stable_sort envelope_first (es ++ (e ∷ [])))
  pushed_perm e es = Permᴰ.trans (snoc_perm e es) (stable_sort-perm envelope_first (es ++ (e ∷ [])))

  pushed-IsValid :
      (q : Queue F) (e : Envelope F)
      → IsValid q
      → contains q e.job.id ≡ false
      → leb_ℤ q.limit (len q) ≡ false
      → IsValid (record q {
        items = stable_sort envelope_first (q.items ++ (e ∷ []));
        seen = insert e.job.id true q.seen;
      })
  unfolding contains len any
  pushed-IsValid q e v fresh room = record {
    sorted = stable_sort-IsSorted envelope_first envelope_first-StrictWeak (q.items ++ (e ∷ []));
    apart =
        AllApart-perm (pushed_perm e q.items)
          (Apart-of_queued e q.items (sym (v.known e.job.id) ∙ fresh), v.apart);
    known = λ id.
        known_after id (any-perm (λ x. x.job.id == id) (pushed_perm e q.items)) (v.known id)
          (lookup-insert e.job.id id true q.seen);
    bounded = ground (arith, length-perm (pushed_perm e q.items), room);
  }
    where
      known_after :
          (id : String)
          → queued id (e ∷ q.items) ≡ queued id (stable_sort envelope_first (q.items ++ (e ∷ [])))
          → contains q id ≡ queued id q.items
          → lookup id (insert e.job.id true q.seen)
            ≡ (if e.job.id == id then some true else lookup id q.seen)
          → flag id (insert e.job.id true q.seen)
            ≡ queued id (stable_sort envelope_first (q.items ++ (e ∷ [])))
      known_after id same was now = ground arith

  -- A push keeps the queue valid, whether it is refused or not.
  pub push-IsValid : (q : Queue F) (e : Envelope F) → IsValid q → IsValid (push q e).0
  unfolding push
  push-IsValid q e v = elim (Bool-cases (contains q e.job.id)) [
    | inl h ↦ rw h v
    | inr h ↦ elim (Bool-cases (leb_ℤ q.limit (len q))) [
      | inl full ↦ rw (h, full) v
      | inr room ↦ rw (h, room) (pushed-IsValid q e v h room)
    ]
  ]

  popped_known :
      (e : Envelope F) (rest : List (Envelope F)) (seen : Map Bool) (id : String)
      → All (Apart e) rest
      → flag id seen ≡ queued id (e ∷ rest)
      → flag id (delete e.job.id seen) ≡ queued id rest
  unfolding any
  popped_known e rest seen id apart k = elim (Bool-cases (e.job.id == id)) [
    | inl same ↦
        ground (
          arith,
          lookup-delete e.job.id id seen,
          same,
          eq_iff e.job.id id,
          queued_none e rest apart,
        )
    | inr other ↦ ground (arith, lookup-delete e.job.id id seen, other, k)
  ]

  popped-IsValid :
      (items : List (Envelope F)) (seen : Map Bool) (limit : ℤ)
      → IsValid (record { items = items; seen = seen; limit = limit })
      → IsValid (pop (record { items = items; seen = seen; limit = limit })).0
  unfolding pop contains
  popped-IsValid [] seen limit v = v
  popped-IsValid (e ∷ rest) seen limit v = record {
    sorted = v.sorted.1;
    apart = v.apart.1;
    known = λ id. popped_known e rest seen id v.apart.0 (v.known id);
    bounded = ground (arith, v.bounded);
  }

  unfoldable pub step : Queue F → Op F → Queue F
  step q (Op.pushed e) = (push q e).0
  step q Op.popped = (pop q).0

  unfoldable pub run_ops : Queue F → List (Op F) → Queue F
  run_ops q [] = q
  run_ops q (o ∷ os) = run_ops (step q o) os

  step-IsValid : (q : Queue F) (o : Op F) → IsValid q → IsValid (step q o)
  unfolding step
  step-IsValid q (Op.pushed e) v = push-IsValid q e v
  step-IsValid q Op.popped v = popped-IsValid q.items q.seen q.limit v

  ops_from-IsValid : (q : Queue F) (os : List (Op F)) → IsValid q → IsValid (run_ops q os)
  unfolding run_ops
  ops_from-IsValid q [] v = v
  ops_from-IsValid q (o ∷ os) v = ops_from-IsValid (step q o) os (step-IsValid q o v)

  -- After any pushes and pops on a new queue, refused or not, the queue is in order (a higher
  -- priority first, then what was enqueued earlier), has at most one envelope of a job, answers
  -- `Contains` for exactly the jobs that it has, and holds no more than its limit.
  pub run_ops-IsValid : (limit : ℤ) (os : List (Op F)) → IsValid (run_ops (new_queue limit) os)
  unfolding new_queue contains lookup any
  run_ops-IsValid limit os =
      ops_from-IsValid (new_queue limit) os
        (record { sorted = tt; apart = tt; known = λ id. refl; bounded = ground arith })

  -- What a pop of a queue gives: nothing only when the queue is empty, and else the head, which no
  -- other envelope comes before, and which the queue that is left takes again.
  abbrev pub FirstOut : Queue F → Queue F × Option (Envelope F) → Type 0
  FirstOut q (left, none) = q.items ≡ []
  FirstOut q (left, some e) =
      (q.items ≡ e ∷ left.items)
      × All (λ x. envelope_first x e ≡ false) left.items
      × ((push left e).1 ≡ ok tt)

  first_out :
      (items : List (Envelope F)) (seen : Map Bool) (limit : ℤ)
      → IsValid (record { items = items; seen = seen; limit = limit })
      → FirstOut
          (record { items = items; seen = seen; limit = limit })
          (pop (record { items = items; seen = seen; limit = limit }))
  unfolding pop push contains len
  first_out [] seen limit v = refl
  first_out (e ∷ rest) seen limit v = (
    refl,
    v.sorted.0,
    ground (
      arith,
      v.bounded,
      queued_none e rest v.apart.0,
      popped_known e rest seen e.job.id v.apart.0 (v.known e.job.id),
    ),
  )

  -- A pop of a valid queue gives nothing only when the queue is empty. Otherwise it takes out the
  -- head of the queue, before which no queued envelope comes by priority and then by time, and the
  -- job that it gave is forgotten: the queue that is left accepts the same envelope again.
  pub pop-FirstOut : (q : Queue F) → IsValid q → FirstOut q (pop q)
  pop-FirstOut q v = first_out q.items q.seen q.limit v
