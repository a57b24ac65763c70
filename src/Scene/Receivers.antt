-- ===== src/Scene/Receivers.antt =====
-- Who gets a message that is sent to a scene.
use txgg.Base.{
  ℕ, zero, suc, ◌+◌, ◌*◌, ◌≡◌, ◌≢◌, Bool, Option, none, some, List, [], ◌∷◌, if◌then◌else◌, length,
}
use txgg.Scene.{Broadcast}

-- The sessions that are wanted, in the order of the scene.
abbrev pub wanted_of : (ℕ → Bool) → List ℕ → List ℕ
wanted_of wanted [] = []
wanted_of wanted (s ∷ ss) = if wanted s then s ∷ wanted_of wanted ss else wanted_of wanted ss

-- The receivers of a message.
abbrev pub receivers_from : (ℕ → ℕ) → ℕ → ℕ → List ℕ
receivers_from fd i zero = []
receivers_from fd i (suc n) = fd i ∷ receivers_from fd (i + 1) n

-- A message for exactly these receivers, which are not none; or nothing, if they are.
abbrev pub Sends : ℕ → List ℕ → Option Broadcast → Type 0
Sends fd_offset fds none = fds ≡ []
Sends fd_offset fds (some b) =
    (b.num_fd ≢ 0)
    × (receivers_from b.fd 0 b.num_fd ≡ fds)
    × (b.num_fd ≡ length fds)
    × (b.len ≡ fd_offset + 2 * length fds)
