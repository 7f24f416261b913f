-- ===== src/Ownership.antt =====
-- app/core/tasks/sequence_queue.py: callers and workers interleaved. A step is one method of the
-- queue, with the start or the end of the thread that follows it.
use vodum.Common.{
  ℕ, ◌+◌, ◌-◌, ◌≤◌, ◌≡◌, ◌≢◌, refl, Bool, true, false, Option, none, some, List, [], ◌∷◌, ◌++◌,
  String, arith, if◌then◌else◌, ap, sym, ◌∙◌, Bool-cases, ◌⊎◌, inl, inr,
}
use vodum.Tasks.{thread_error}
use vodum.State.{World, Result, ok, raised, request}
use vodum.Sequences.{SequenceQueue, enqueue, take_next, enqueue_sequence}

-- The queue, the workers that live, the starts of a thread that failed, and the sequences that were
-- submitted and taken, in order.
pub record Pool : Type 0 where
  pub queue : SequenceQueue
  pub workers : ℕ
  pub failed : ℕ
  pub submitted : List (List String)
  pub taken : List (List String)

-- A caller's part: nothing was queued if the queue raised. Where the caller must start a worker, the
-- thread starts or its start raises; the sequence stays in the queue.
abbrev pub started : Result (Unit {0}) → Pool → Pool
started (ok _) p = record p { workers = p.workers + 1 }
started (raised e) p = record p { failed = p.failed + 1 }

abbrev pub submitted_to :
    List String → Pool → Result Bool → Result (Unit {0}) × SequenceQueue × World → Pool
submitted_to names p (raised e) (r, q, w) = record p { queue = q }
submitted_to names p (ok false) (r, q, w) = record p {
  queue = q;
  submitted = p.submitted ++ names ∷ [];
}
submitted_to names p (ok true) (r, q, w) =
    started r (record p { queue = q; submitted = p.submitted ++ names ∷ [] })

-- A worker's part after `take_next`: it runs the sequence, or ends.
abbrev pub turned : Pool → Option (List String) × SequenceQueue → Pool
turned p (none, q) = record p { queue = q; workers = p.workers - 1 }
turned p (some names, q) = record p { queue = q; taken = p.taken ++ names ∷ [] }

pub data Step : Pool → Pool → Type 0 where
  submit :
      (p : Pool) (names : List String) (w : World)
      → Step p (submitted_to names p (enqueue names p.queue).0 (enqueue_sequence names p.queue w))
  turn : (p : Pool) → 1 ≤ p.workers → Step p (turned p (take_next p.queue))

abbrev pub empty_pool : Pool
empty_pool = record {
  queue = record { items = []; worker_running = false };
  workers = 0;
  failed = 0;
  submitted = [];
  taken = [];
}

pub data Reach : Pool → Type 0 where
  begin : Reach empty_pool
  next : (p p' : Pool) → Reach p → Step p p' → Reach p'

record IsOwned (p : Pool) : Type 0 where
  owner : p.workers + p.failed ≡ (if p.queue.worker_running then 1 else 0)
  alive : p.queue.items ≢ [] → p.queue.worker_running ≡ true
  order : p.submitted ≡ p.taken ++ p.queue.items

append_assoc : (xs ys zs : List (List String)) → (xs ++ ys) ++ zs ≡ xs ++ (ys ++ zs)
append_assoc [] ys zs = refl
append_assoc (x ∷ xs) ys zs = ap (λ l. x ∷ l) (append_assoc xs ys zs)

started-IsOwned :
    (r : Result (Unit {0})) (p : Pool) (names : List String)
    → IsOwned p
    → p.queue.worker_running ≡ false
    → IsOwned (
        started r (record p {
          queue = record { items = p.queue.items ++ names ∷ []; worker_running = true };
          submitted = p.submitted ++ names ∷ [];
        }))
started-IsOwned (ok _) p names h free = record {
  owner = ground (arith, h.owner, free);
  alive = λ d. refl;
  order = ap (λ l. l ++ names ∷ []) h.order ∙ append_assoc p.taken p.queue.items _;
}
started-IsOwned (raised e) p names h free = record {
  owner = ground (arith, h.owner, free);
  alive = λ d. refl;
  order = ap (λ l. l ++ names ∷ []) h.order ∙ append_assoc p.taken p.queue.items _;
}

submit-IsOwned :
    (p : Pool) (names : List String) (w : World)
    → IsOwned p
    → IsOwned (submitted_to names p (enqueue names p.queue).0 (enqueue_sequence names p.queue w))
unfolding enqueue enqueue_sequence
submit-IsOwned p [] w h = h
submit-IsOwned p (n ∷ ns) w h = elim (Bool-cases p.queue.worker_running) [
  | inl held ↦ rw held (record {
    owner = ground (arith, h.owner, held);
    alive = λ d. refl;
    order = ap (λ l. l ++ (n ∷ ns) ∷ []) h.order ∙ append_assoc p.taken p.queue.items _;
  })
  | inr free ↦ rw free (started-IsOwned (request thread_error w).0 p (n ∷ ns) h free)
]

abbrev pool_of : List (List String) → Bool → ℕ → ℕ → List (List String) → List (List String) → Pool
pool_of items running workers failed submitted taken = record {
  queue = record { items = items; worker_running = running };
  workers = workers;
  failed = failed;
  submitted = submitted;
  taken = taken;
}

turn-IsOwned :
    (items : List (List String)) (running : Bool) (workers failed : ℕ)
    (submitted taken : List (List String))
    → 1 ≤ workers
    → let p = pool_of items running workers failed submitted taken in
      IsOwned p → IsOwned (turned p (take_next p.queue))
unfolding take_next
turn-IsOwned [] running workers failed submitted taken w h = record {
  owner = ground (arith, h.owner);
  alive = λ d. absurd (d refl);
  order = h.order;
}
turn-IsOwned (s ∷ rest) running workers failed submitted taken w h = record {
  owner = h.owner;
  alive = λ d. ground arith;
  order = h.order ∙ sym (append_assoc taken (s ∷ []) rest);
}

Step-IsOwned : {p p' : Pool} → Step p p' → IsOwned p → IsOwned p'
Step-IsOwned (submit p names w) h = submit-IsOwned p names w h
Step-IsOwned (turn p w) h =
    turn-IsOwned p.queue.items p.queue.worker_running p.workers p.failed p.submitted p.taken w h

list-cases : (l : List (List String)) → (l ≡ []) ⊎ (l ≢ [])
list-cases [] = inl refl
list-cases (x ∷ l) = inr (λ e. cc)

Reach-IsOwned : {p : Pool} → Reach p → IsOwned p
Reach-IsOwned begin = record { owner = refl; alive = λ d. absurd (d refl); order = refl }
Reach-IsOwned (next p p' r s) = Step-IsOwned s (Reach-IsOwned r)

waits : (p : Pool) → IsOwned p → (p.queue.items ≡ []) ⊎ (p.workers + p.failed ≡ 1)
waits p h = elim (list-cases p.queue.items) [
  | inl empty ↦ inl empty
  | inr full ↦ inr (ground (arith, h.owner, h.alive full))
]

-- In any interleaving of callers and workers, with threads whose start may fail, there is at most one
-- worker; as long as a sequence waits there is one, unless the start of a thread has failed, which it
-- does once at most; and the sequences were taken in the order of their submission, none lost.
pub Reach-owned_once :
    (p : Pool)
    → Reach p
    → (p.workers + p.failed ≤ 1)
      × ((p.queue.items ≡ []) ⊎ (p.workers + p.failed ≡ 1))
      × (p.submitted ≡ p.taken ++ p.queue.items)
Reach-owned_once p r = let h = Reach-IsOwned r in (ground (arith, h.owner), waits p h, h.order)

-- What follows on a state.
pub data Later (p : Pool) : Pool → Type 0 where
  stay : Later p p
  go_on : (q r : Pool) → Later p q → Step q r → Later p r

later-Reach : {p q : Pool} → Later p q → Reach p → Reach q
later-Reach stay h = h
later-Reach (go_on q r l s) h = next q r (later-Reach l h) s

-- A start has failed, and the sequences that were taken are these.
abbrev IsBlocked : List (List String) → Pool → Type 0
IsBlocked taken p = (1 ≤ p.failed) × (p.taken ≡ taken)

step-IsBlocked :
    (taken : List (List String)) {p q : Pool}
    → Step p q
    → IsOwned p
    → IsBlocked taken p
    → IsBlocked taken q
unfolding enqueue enqueue_sequence
step-IsBlocked taken (submit p [] w) h b = b
step-IsBlocked taken (submit p (n ∷ ns) w) h b =
    let held : p.queue.worker_running ≡ true = elim (Bool-cases p.queue.worker_running) [
      | inl t ↦ t
      | inr free ↦ absurd (ground (arith, h.owner, free, b.0))
    ] in
    rw held b
step-IsBlocked taken (turn p w) h b = absurd (ground (arith, h.owner, b.0, w))

later-IsBlocked :
    (taken : List (List String)) {p q : Pool}
    → Later p q
    → Reach p
    → IsBlocked taken p
    → IsBlocked taken q
later-IsBlocked taken stay r b = b
later-IsBlocked taken (go_on q q' l s) r b =
    step-IsBlocked taken s (Reach-IsOwned (later-Reach l r)) (later-IsBlocked taken l r b)

-- Once the start of a thread has failed, no worker ever lives again, whatever is submitted later: no
-- sequence is taken any more, and each one that was not taken, and each later one, waits for ever.
pub failed_start_blocks :
    (p q : Pool)
    → Reach p
    → 1 ≤ p.failed
    → Later p q
    → (q.workers ≡ 0) × (q.taken ≡ p.taken) × (q.submitted ≡ p.taken ++ q.queue.items)
failed_start_blocks p q r f l =
    let b = later-IsBlocked p.taken l r (f, refl) in
    let h = Reach-IsOwned (later-Reach l r) in
    (ground (arith, h.owner, b.0), b.1, h.order ∙ ap (λ t. t ++ q.queue.items) b.1)
