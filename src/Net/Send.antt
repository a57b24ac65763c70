-- ===== src/Net/Send.antt =====
-- What send_one_msg puts on the wire.
use txgg.Base.{
  ℕ, ◌+◌, ◌≤◌, ◌<◌, min, ◌≡◌, refl, sym, ◌∙◌, Bool, take-append-drop, true, false, List, [], ◌∷◌,
  ◌++◌, arith, length, take, drop, length-drop, length-take, length-append, Bool-cases, inl, inr,
  ◌==◌,
}
use mathlib.Core.List.{append_assoc}
use txgg.Net.{Reply, room, again, broken, Outcome, done, failed, waiting, send_loop, send_one_msg}

-- How much the socket takes in all.
abbrev pub total_room : List Reply → ℕ
total_room [] = 0
total_room (room n ∷ rs) = n + total_room rs
total_room (again ∷ rs) = total_room rs
total_room (broken ∷ rs) = total_room rs

-- The connection does not break, and with `force` the socket always has room.
abbrev pub Holds : Bool → List Reply → Type 0
Holds force [] = Unit
Holds force (room n ∷ rs) = Holds force rs
Holds force (again ∷ rs) = (force ≡ false) × Holds force rs
Holds force (broken ∷ rs) = ⊥

abbrev pub Sends : List Reply → List ℕ → ℕ → Outcome × List ℕ → Type 0
Sends rs p total (done n, wire) = (n ≡ total) × (wire ≡ p)
Sends rs p total (failed, wire) = (unsent : List ℕ) × (p ≡ wire ++ unsent)
Sends rs p total (waiting, wire) =
    (unsent : List ℕ) × (p ≡ wire ++ unsent) × (total_room rs ≤ length wire)

module _ (n : ℕ) (rs : List Reply) (p : List ℕ) (total : ℕ)
    (partial : (min n (length p) == length p) ≡ false) where
  -- A partial write, followed by what the rest of the loop sends.
  extend :
      (r : Outcome × List ℕ)
      → Sends rs (drop (min n (length p)) p) total r
      → Sends (room n ∷ rs) p total (r.0, take (min n (length p)) p ++ r.1)
  extend (done m, w) (e, whole) = (e, rw whole (sym (take-append-drop (min n (length p)) p)))
  extend (failed, w) (unsent, e) = (
    unsent,
    take-append-drop (min n (length p)) p
        ∙ rw e (sym (append_assoc (take (min n (length p)) p) w unsent)),
  )
  extend (waiting, w) (unsent, e, used) = (
    unsent,
    take-append-drop (min n (length p)) p
        ∙ rw e (sym (append_assoc (take (min n (length p)) p) w unsent)),
    ground (
      arith,
      length-append (take (min n (length p)) p) w,
      length-take (min n (length p)) p,
      partial,
    ),
  )

send_loop-Sends :
    (force : Bool) (rs : List Reply) (p : List ℕ) (total : ℕ)
    → Sends rs p total (send_loop force rs p total)
unfolding send_loop
send_loop-Sends force [] p total = (p, refl, omega arith)
send_loop-Sends force (room n ∷ rs) p total = elim (Bool-cases (min n (length p) == length p)) [
  | inl e ↦ rw e (refl, refl)
  | inr e ↦ rw e (
      extend n rs p total e (send_loop force rs (drop (min n (length p)) p) total)
        (send_loop-Sends force rs (drop (min n (length p)) p) total))
]
send_loop-Sends true (again ∷ rs) p total = (p, refl)
send_loop-Sends false (again ∷ rs) p total = send_loop-Sends false rs p total
send_loop-Sends force (broken ∷ rs) p total = (p, refl)

-- What send_one_msg has put on the wire is at every moment a first part of the message, each byte
-- once and in order. It is the whole message if the length is returned, and as long as the loop runs
-- the socket has not taken more than that.
pub send_one_msg-Sends :
    (force : Bool) (replies : List Reply) (msg : List ℕ)
    → Sends replies msg (length msg) (send_one_msg force replies msg)
unfolding send_one_msg
send_one_msg-Sends force replies msg = send_loop-Sends force replies msg (length msg)

send_loop_finishes :
    (force : Bool) (rs : List Reply) (p : List ℕ) (total : ℕ)
    → Holds force rs
    → 0 < length p
    → length p ≤ total_room rs
    → send_loop force rs p total ≡ (done total, p)
unfolding send_loop
send_loop_finishes force [] p total h some_left enough = absurd (omega arith)
send_loop_finishes force (room n ∷ rs) p total h some_left enough =
    elim (Bool-cases (min n (length p) == length p)) [
      | inl e ↦ rw e refl
      | inr e ↦
          rw
            (
              e,
              send_loop_finishes force rs (drop (min n (length p)) p) total h
                  (ground (arith, e, length-drop (min n (length p)) p))
                  (ground (arith, e, length-drop (min n (length p)) p)),
              ← take-append-drop (min n (length p)) p,
            )
            refl
    ]
send_loop_finishes true (again ∷ rs) p total h some_left enough = cc (h.0)
send_loop_finishes false (again ∷ rs) p total h some_left enough =
    send_loop_finishes false rs p total h.1 some_left enough
send_loop_finishes force (broken ∷ rs) p total h some_left enough = absurd h

-- send_one_msg of a message of one byte at least returns the length, with the whole message on the
-- wire, once the socket has had room for the message in all, in whatever parts, provided that the connection does not break and that,
-- with `force`, there is never a moment without room.
pub send_one_msg_finishes :
    (force : Bool) (replies : List Reply) (msg : List ℕ)
    → Holds force replies
    → 0 < length msg
    → length msg ≤ total_room replies
    → send_one_msg force replies msg ≡ (done (length msg), msg)
unfolding send_one_msg
send_one_msg_finishes force replies msg = send_loop_finishes force replies msg (length msg)
