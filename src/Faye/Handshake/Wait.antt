-- ===== src/Faye/Handshake/Wait.antt =====
-- The wait before a handshake.
use matrix_groupme_bridge.Prelude.{
  ℕ, ◌-◌, ◌^◌, ◌<◌, ◌≡◌, refl, true, false, ltb, ◌&&◌, if◌then◌else◌, ◌>>=◌, Bool-cases, slt64, inl,
  inr, some, none, arith, done,
}
use matrix_groupme_bridge.Faye.Transport.{Net, mandatory_connection_types}
use matrix_groupme_bridge.Faye.Client.{Sys}
use matrix_groupme_bridge.Faye.Handshake.{
  sleep_for, wait_first, is_disconnected, select, handshake_with, handshake,
}

sleep_for_lem :
    (next now later : ℕ)
    → now < 2 ^ 63
    → later < 2 ^ 63
    → now < next
    → next < 2 ^ 63
    → sleep_for next now later ≡ (if ltb next later then some (later - next) else none)
unfolding sleep_for
sleep_for_lem next now later hw hl ahead small = ground arith

is_ahead :
    (now next : ℕ)
    → now < 2 ^ 63
    → next < 2 ^ 64
    → slt64 now next ≡ (ltb now next && ltb next (2 ^ 63))
is_ahead now next hw hn = ground arith

both : (now next : ℕ) → (ltb now next && ltb next (2 ^ 63)) ≡ true → (now < next) × (next < 2 ^ 63)
both now next h = ground arith

module _ (net : Net) where
  -- The world after the wait: time is read once or twice, and the handshake sleeps for the seconds since the
  -- time to wait for.
  abbrev pub waited : (next now later : ℕ) → net.World → net.World → net.World
  waited next now later w w' =
      if ltb now next && ltb next (2 ^ 63)
      then (if ltb next later then net.sleep (later - next) w' else w')
      else w

  module _ (s : Sys net) {now later : ℕ} {w w' : net.World}
      (first : net.unix_now s.world ≡ (now, w)) (second : net.unix_now w ≡ (later, w'))
      (hn : s.client.next_handshake < 2 ^ 64) (hw : now < 2 ^ 63) (hl : later < 2 ^ 63) where
    wait_first_lem :
        wait_first net s
        ≡ done tt (record s { world = waited s.client.next_handshake now later w w' })
    unfolding wait_first
    wait_first_lem =
        let next = s.client.next_handshake in
        rw (first, second, is_ahead now s.client.next_handshake hw hn)
          (elim (Bool-cases (ltb now next && ltb next (2 ^ 63))) [
            | inl ahead ↦
                let (after, small) = both now next ahead in
                elim (Bool-cases (ltb next later)) [
                  | inl late ↦
                      rw
                        (ahead, sleep_for_lem next now later hw hl after small, late, first, second)
                        refl
                  | inr early ↦
                      rw
                        (
                          ahead,
                          sleep_for_lem next now later hw hl after small,
                          early,
                          first,
                          second,
                        )
                        refl
                ]
            | inr past ↦ rw past refl
          ])

    -- A handshake of a client that is not disconnected, for readings of the clock that are not negative and any
    -- int64 time to wait for, selects a transport and goes on in the client as it was, in the world after its
    -- wait. Where that time lies after the first reading, the clock is read again, and the handshake
    -- sleeps only if the time lies before the second reading, so only once it has passed, and then for the
    -- seconds since; where it does not, the clock is read once and there is no sleep.
    pub handshake_waits :
        (fuel : ℕ)
        → is_disconnected s.client.state ≡ false
        → handshake net fuel s
          ≡ (select net mandatory_connection_types >>= handshake_with net fuel)
              (record s { world = waited s.client.next_handshake now later w w' })
    unfolding handshake
    handshake_waits fuel told = rw (told, wait_first_lem) refl
