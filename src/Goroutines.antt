-- ===== src/Goroutines.antt =====
-- The goroutines of one session, interleaved in any order: the writers of wssession.go (`write`,
-- `writeBuff`), its `writeLoop` and its `readLoop`. Each of them takes one access to the shared
-- session at a time, and sees what the others have written before.
pub mod Order
pub mod Closing
pub mod Stall
pub mod Runs
pub mod Workers
mod Tests
use gateway_lite.Common.{
  Bool, Bytes, List, Member, [], false, length, true, ℕ, ◌++◌, ◌<◌, ◌∷◌, ◌≡◌, nat_eq, bytes_eq,
}

-- The capacity of `writeCh`.
abbrev pub write_ch_size : ℕ
write_ch_size = 10

-- Where the write loop stands: before the test of `running`, at the receive, before the write of a
-- message, or past its end.
pub data WritePc : Type 0 where
  at_test : WritePc
  at_receive : WritePc
  at_write : Bytes → WritePc
  ended : WritePc

-- Where the read loop stands: at a read, between the two statements that end the session, or past
-- them.
pub data ReadPc : Type 0 where
  reads : ReadPc
  stops : ReadPc
  closed : ReadPc

-- `pending` has the messages of the writers that have passed their test of `running` and not yet
-- sent, `accepted` what the channel has taken since the start, `sent` what the connection has
-- taken, and `lost` the message whose write failed.
pub record Line : Type 0 where
  pub running : Bool
  pub write_ch : List Bytes
  pub write_pc : WritePc
  pub read_pc : ReadPc
  pub pending : List Bytes
  pub accepted : List Bytes
  pub sent : List Bytes
  pub lost : List Bytes

-- A session when its loops start.
abbrev pub new_line : Line
new_line = record {
  running = true;
  write_ch = [];
  write_pc = at_test;
  read_pc = reads;
  pending = [];
  accepted = [];
  sent = [];
  lost = [];
}

-- The write loop on its way: its test, the receive (which a closed empty channel lets go on), and
-- the write, which can fail.
pub data LoopStep (s : Line) : Line → Type 0 where
  goes_on :
      s.write_pc ≡ at_test → s.running ≡ true → LoopStep s (record s { write_pc = at_receive })
  leaves : s.write_pc ≡ at_test → s.running ≡ false → LoopStep s (record s { write_pc = ended })
  receives :
      (msg : Bytes) (rest : List Bytes)
      → s.write_pc ≡ at_receive
      → s.write_ch ≡ msg ∷ rest
      → LoopStep s (record s { write_pc = at_write msg; write_ch = rest })
  finds_closed :
      s.write_pc ≡ at_receive
      → s.write_ch ≡ []
      → s.read_pc ≡ closed
      → LoopStep s (record s { write_pc = at_test })
  writes :
      (msg : Bytes)
      → s.write_pc ≡ at_write msg
      → LoopStep s (record s { write_pc = at_test; sent = s.sent ++ msg ∷ [] })
  fails :
      (msg : Bytes)
      → s.write_pc ≡ at_write msg
      → LoopStep s (record s { write_pc = ended; lost = s.lost ++ msg ∷ [] })

-- A writer passes its test, and the channel takes its message where there is room.
pub data WriterStep (s : Line) : Line → Type 0 where
  enters : (msg : Bytes) → s.running ≡ true → WriterStep s (record s { pending = msg ∷ s.pending })
  sends :
      (before after : List Bytes) (msg : Bytes)
      → s.pending ≡ before ++ msg ∷ after
      → (s.read_pc ≡ closed → ⊥)
      → length s.write_ch < write_ch_size
      → WriterStep s (record s {
        pending = before ++ after;
        write_ch = s.write_ch ++ msg ∷ [];
        accepted = s.accepted ++ msg ∷ [];
      })

-- A read fails, and the channel is closed.
pub data EndStep (s : Line) : Line → Type 0 where
  stops_running : s.read_pc ≡ reads → EndStep s (record s { running = false; read_pc = stops })
  closes : s.read_pc ≡ stops → EndStep s (record s { read_pc = closed })

pub data Step (s t : Line) : Type 0 where
  loops : LoopStep s t → Step s t
  writers : WriterStep s t → Step s t
  ending : EndStep s t → Step s t

pub data Reach (s : Line) : Line → Type 0 where
  here : Reach s s
  next : {t u : Line} → Reach s t → Step t u → Reach s u

-- A send on the closed channel, whether the writer comes to it now or waits for room, panics: the
-- process ends where the writer is a worker or the loop of the notices.
pub record Panics (s : Line) : Type 0 where
  pub is_closed : s.read_pc ≡ closed
  pub msg : Bytes
  pub is_pending : Member msg s.pending
