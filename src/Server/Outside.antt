-- ===== src/Server/Outside.antt =====
-- The state of the parser of src/magit_server.c does not depend on what the event loop holds.
use magit.Base.{◌≡◌, refl}
use magit.Server.{ParserState, read_length, read_payload, Parser}
use magit.Server.Buffers.{phase_at, StateInv, IsValid}

module _ {L : Type 0} (p : Parser L) (l : L) where
  pub phase_at-loop : (s : ParserState) → phase_at s p ≡ phase_at s (record p { loop = l })
  unfolding phase_at
  phase_at-loop read_length = refl
  phase_at-loop read_payload = refl

  StateInv-loop : (s : ParserState) → StateInv s p → StateInv s (record p { loop = l })
  StateInv-loop read_length h = h
  StateInv-loop read_payload h = h

  pub IsValid-loop : IsValid p → IsValid (record p { loop = l })
  IsValid-loop v = record {
    length_cells = v.length_cells;
    payload_cells = v.payload_cells;
    counters = StateInv-loop p.state v.counters;
  }
