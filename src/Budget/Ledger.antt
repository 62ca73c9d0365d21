-- ===== src/Budget/Ledger.antt =====
-- Whatever reserves and releases are interleaved, each budget is the sum of what is still held.
use ankah.Prelude.{
  ℕ, zero, suc, ◌+◌, ◌≤◌, ◌≡◌, ◌≢◌, Bool, true, false, List, [], ◌∷◌, some, arith, if◌then◌else◌,
  get_elem?,
}
use ankah.Prelude.Words.{size_max}
use ankah.Budget.{Queue, Queues, queue_reserve, queue_release}

-- A reservation that has not been released: its queue and its bytes.
pub record Held : Type 0 where
  pub response : Bool
  pub bytes : ℕ

abbrev same : Bool → Bool → Bool
same true b = b
same false true = false
same false false = true

-- The bytes held on one queue.
abbrev pub total : Bool → List Held → ℕ
total r [] = 0
total r (h ∷ hs) = (if same r h.response then h.bytes else 0) + total r hs

-- Takes the n-th reservation out.
abbrev pub without : ℕ → List Held → List Held
without n [] = []
without zero (h ∷ hs) = hs
without (suc n) (h ∷ hs) = h ∷ without n hs

-- The callers: each may reserve, and may release once what it has reserved.
pub data Step : Queues × List Held → Queues × List Held → Type 0 where
  reserve :
      (q : Queues) (hs : List Held) (r : Bool) (n : ℕ)
      → (queue_reserve r n q).1 ≡ true
      → Step (q, hs) ((queue_reserve r n q).0, record { response = r; bytes = n } ∷ hs)
  refuse :
      (q : Queues) (hs : List Held) (r : Bool) (n : ℕ)
      → (queue_reserve r n q).1 ≡ false
      → Step (q, hs) ((queue_reserve r n q).0, hs)
  release :
      (q : Queues) (hs : List Held) (i : ℕ) (h : Held)
      → get_elem? hs i ≡ some h
      → Step (q, hs) (queue_release h.response h.bytes q, without i hs)

pub data Reach (s : Queues × List Held) : Queues × List Held → Type 0 where
  here : Reach s s
  next : {t u : Queues × List Held} → Reach s t → Step t u → Reach s u

-- One queue keeps its books: within the limit and the word, below its high-water mark.
pub record Kept (q : Queue) (held : ℕ) : Type 0 where
  pub exact : q.used ≡ held
  pub in_word : q.used ≤ size_max
  pub limited : q.limit ≢ 0 → q.used ≤ q.limit
  pub marked : q.used ≤ q.high

pub record Balanced (s : Queues × List Held) : Type 0 where
  pub request : Kept s.0.request (total false s.1)
  pub response : Kept s.0.response (total true s.1)

total-without :
    (r : Bool) (hs : List Held) (i : ℕ) (h : Held)
    → get_elem? hs i ≡ some h
    → total r hs ≡ total r (without i hs) + (if same r h.response then h.bytes else 0)
total-without r [] i h e = cc
total-without r (x ∷ hs) zero h e = ground arith
total-without r (x ∷ hs) (suc i) h e = omega (arith, total-without r hs i h e)

reserve-Balanced :
    (r : Bool) (n : ℕ) (q : Queues) (hs : List Held)
    → Balanced (q, hs)
    → (queue_reserve r n q).1 ≡ true
    → Balanced ((queue_reserve r n q).0, record { response = r; bytes = n } ∷ hs)
unfolding queue_reserve
reserve-Balanced true n q hs b e = ground arith
reserve-Balanced false n q hs b e = ground arith

release-Balanced :
    (q : Queues) (hs : List Held) (i : ℕ) (h : Held)
    → get_elem? hs i ≡ some h
    → Balanced (q, hs)
    → Balanced (queue_release h.response h.bytes q, without i hs)
unfolding queue_release
release-Balanced q hs i h e b =
    ground (arith, total-without true hs i h e, total-without false hs i h e)

refuse-Balanced :
    (r : Bool) (n : ℕ) (q : Queues) (hs : List Held)
    → Balanced (q, hs)
    → (queue_reserve r n q).1 ≡ false
    → Balanced ((queue_reserve r n q).0, hs)
unfolding queue_reserve
refuse-Balanced r n q hs b e = ground arith

Step-Balanced : {s t : Queues × List Held} → Step s t → Balanced s → Balanced t
Step-Balanced (reserve q hs r n e) b = reserve-Balanced r n q hs b e
Step-Balanced (refuse q hs r n e) b = refuse-Balanced r n q hs b e
Step-Balanced (release q hs i h e) b = release-Balanced q hs i h e b

-- From any balanced state every interleaving of reserves and releases leaves each queue with
-- exactly the bytes still held, within its limit and its high-water mark.
pub Reach-Balanced : {s t : Queues × List Held} → Balanced s → Reach s t → Balanced t
Reach-Balanced b here = b
Reach-Balanced b (next r st) = Step-Balanced st (Reach-Balanced b r)
