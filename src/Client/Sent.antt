-- ===== src/Client/Sent.antt =====
-- What `writeFrame` does on the socket, on every path.
use claude_code_socket_trans.Base.{
  ℕ, Bool, List, Result, Bytes, ◌∷◌, arith, ◌≡◌, err, [], connecting, ok, if◌then◌else◌, length,
  frame_too_long, ◌<◌, leb, true, false, refl,
}
use claude_code_socket_trans.Client.{
  dialled, wrote, half_closed, drained, closed, write_frame, transmit, line_of, Event, Net, Client,
  dialled, wrote, half_closed, silent, with_token, max_frame_bytes, timeout_of, resolve_token,
}
use claude_code_socket_trans.Os.{Os}

-- A connection is used and closed: nothing was dialled, the dial was refused, or the last event is the
-- only close.
abbrev pub IsClosed : List Event → Type 0
IsClosed [] = ⊥
IsClosed (closed ∷ []) = Unit
IsClosed (closed ∷ e ∷ es) = ⊥
IsClosed (dialled p t ∷ es) = ⊥
IsClosed (wrote s ∷ es) = IsClosed es
IsClosed (half_closed ∷ es) = IsClosed es
IsClosed (drained ∷ es) = IsClosed es

abbrev pub IsReleased : Result (Unit {0}) → List Event → Type 0
IsReleased r [] = Unit
IsReleased r (dialled p t ∷ []) = r ≡ err connecting
IsReleased r (dialled p t ∷ e ∷ es) = IsClosed (e ∷ es)
IsReleased r _ = ⊥

module _ (os : Os) (net : Net) where
  transmit-IsReleased :
      (path : Bytes) (timeout : ℕ) (line : Bytes)
      → let d = transmit os net path timeout line in IsReleased d.result d.events
  unfolding transmit
  transmit-IsReleased path timeout line = ground arith

  -- Whatever fails, writeFrame leaves no connection open: it dials at most once, and a connection
  -- that it got is closed once and last.
  pub write_frame-IsReleased :
      (c : Client) (path payload : Bytes)
      → let d = write_frame os net c path payload in IsReleased d.result d.events
  unfolding write_frame
  write_frame-IsReleased c path payload =
      tested (leb max_frame_bytes (length payload)) (resolve_token os c path)
    where
      tested :
          (b : Bool) (r : Result Bytes)
          → let d =
              if b
              then silent (err frame_too_long)
              else with_token os net path (timeout_of c) payload r in
            IsReleased d.result d.events
      tested true r = tt
      tested false (err e) = tt
      tested false (ok token) = transmit-IsReleased path (timeout_of c) (line_of token payload)

  transmit_ok :
      (path : Bytes) (timeout : ℕ) (line : Bytes)
      → (transmit os net path timeout line).result ≡ ok tt
      → (transmit os net path timeout line).events
        ≡ dialled path timeout ∷ wrote line ∷ half_closed ∷ drained ∷ closed ∷ []
  unfolding transmit
  transmit_ok path timeout line h = ground arith

  -- If writeFrame succeeds, the frame is below the receiver's limit, and the events were the dial,
  -- one write of the frame's line behind the resolved token's, the half-close, the wait for the end
  -- and the close.
  pub write_frame_ok :
      (c : Client) (path payload : Bytes)
      → (write_frame os net c path payload).result ≡ ok tt
      → (token : Bytes) × (length payload < max_frame_bytes)
        × (resolve_token os c path ≡ ok token)
        × ((write_frame os net c path payload).events
            ≡ dialled path (timeout_of c)
              ∷ wrote (line_of token payload)
              ∷ half_closed
              ∷ drained
              ∷ closed
              ∷ [])
  unfolding write_frame
  write_frame_ok c path payload h =
      tested (leb max_frame_bytes (length payload)) refl (resolve_token os c path) refl h
    where
      tested :
          (b : Bool)
          → leb max_frame_bytes (length payload) ≡ b
          → (r : Result Bytes) → resolve_token os c path ≡ r
          → (if b
              then silent (err frame_too_long)
              else with_token os net path (timeout_of c) payload r).result
            ≡ ok tt
          → (token : Bytes) × (length payload < max_frame_bytes)
            × (resolve_token os c path ≡ ok token)
            × ((if b
                  then silent (err frame_too_long)
                  else with_token os net path (timeout_of c) payload r).events
                ≡ dialled path (timeout_of c)
                  ∷ wrote (line_of token payload)
                  ∷ half_closed
                  ∷ drained
                  ∷ closed
                  ∷ [])
      tested true hb r hr h = absurd (ground arith)
      tested false hb (err e) hr h = absurd (ground arith)
      tested false hb (ok token) hr h =
          (token, ground arith, hr, transmit_ok path (timeout_of c) (line_of token payload) h)
