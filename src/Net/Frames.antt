-- ===== src/Net/Frames.antt =====
-- What a connection's buffer holds, as a list of bytes, and what its operations do to that list.
use txgg.Base.{
  ℕ, ◌+◌, ◌-◌, ◌≤◌, ◌≡◌, refl, sym, ap, ◌∙◌, Bool, ◌&&◌, List, ◌++◌, arith, leb, leb→le, length,
  length-append, Bool-cases, inl, inr,
}
use txgg.Net.{
  Client, max_buf_per_client, proto_head_size, window, buf_size, buf_leave, head_len, is_complete,
  receive, remove_front,
}
use txgg.Net.Bytes.{len_field, window-memmove, len_field-window, window-receive, window-split}

-- The connection `fd` keeps its bytes from index `start` on, and they are `bytes`.
pub record Buffered (fd start : ℕ) (bytes : List ℕ) (client : Client) : Type 0 where
  pub fd_lem : client.fd ≡ fd
  pub begins : client.pos_begin ≡ start
  pub ends : client.pos_end ≡ start + length bytes
  pub fits : client.pos_end ≤ max_buf_per_client
  pub holds : window client.buf start (length bytes) ≡ bytes

-- A list of bytes begins with a whole message.
abbrev pub has_message : List ℕ → Bool
has_message bytes = leb proto_head_size (length bytes) && leb (len_field bytes) (length bytes)

module _ (fd start : ℕ) (client : Client) where
  size_eq : (bytes : List ℕ) → Buffered fd start bytes client → buf_size client ≡ length bytes
  size_eq bytes b = omega arith

  pub head_len_eq :
      (bytes : List ℕ)
      → Buffered fd start bytes client
      → 2 ≤ length bytes
      → head_len client ≡ len_field bytes
  head_len_eq bytes b two =
      rw b.begins
        (sym (len_field-window client.buf start (length bytes) two) ∙ ap len_field b.holds)

  pub is_complete-Buffered :
      (bytes : List ℕ) → Buffered fd start bytes client → is_complete client ≡ has_message bytes
  unfolding is_complete
  is_complete-Buffered bytes b = elim (Bool-cases (leb proto_head_size (length bytes))) [
    | inl e ↦ rw (size_eq bytes b, head_len_eq bytes b (omega (arith, leb→le _ _ e))) refl
    | inr e ↦ rw (size_eq bytes b, e) refl
  ]

  pub receive-Buffered :
      (bytes received : List ℕ)
      → Buffered fd start bytes client
      → length received ≤ buf_leave client
      → Buffered fd start (bytes ++ received) (receive received client)
  unfolding receive
  receive-Buffered bytes received b fits = record {
    fd_lem = b.fd_lem;
    begins = b.begins;
    ends = omega (arith, length-append bytes received);
    fits = omega arith;
    holds = rw b.ends (window-receive client.buf start bytes received b.holds);
  }

  pub remove_front-Buffered :
      (msg rest : List ℕ)
      → Buffered fd start (msg ++ rest) client
      → head_len client ≡ length msg
      → Buffered fd start rest (remove_front client)
  unfolding remove_front
  remove_front-Buffered msg rest b h =
      let left : buf_size client - head_len client ≡ length rest =
        omega (arith, length-append msg rest) in
      record {
        fd_lem = b.fd_lem;
        begins = b.begins;
        ends = omega (arith, length-append msg rest);
        fits = omega arith;
        holds =
            rw (left, h, b.begins)
              (window-memmove client.buf start (start + length msg) (length rest)
                ∙ (window-split client.buf start msg rest b.holds).1);
      }
