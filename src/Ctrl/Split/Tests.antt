-- ===== src/Ctrl/Split/Tests.antt =====
-- Packets of concrete bytes: the theorems at their inputs.
use vde.Base.{ℕ, ◌≡◌, refl, true, false, some, List, [], ◌∷◌, ◌++◌, done, arith}
use vde.Packet.{Pkt, bytes}
use vde.Ctrl.Split.{Passed, ctrl_split_payload, max_inbuf_sz}
use vde.Ctrl.Split.Laws.{strings, glue, outcome, ctrl_split_payload-strings}
use vde.Packet.{payload_of}

abbrev packet : ℕ → List ℕ → Pkt
packet len payload = record {
  hdr = record { version = 0; type = 0; pkt_len = len };
  head = 4;
  payload = 4;
  tail = 40;
  data_size = 40;
  memory = bytes payload;
}

abbrev log : Passed → List Passed → List Passed
log p s = s ++ (p ∷ [])

-- "b", NUL, "cd", NUL, "e"
abbrev stream : Pkt
stream = packet 6 (98 ∷ 0 ∷ 99 ∷ 100 ∷ 0 ∷ 101 ∷ [])

-- The string "ab" begins in the buffer and is passed without a NUL.
stream-passed :
    ctrl_split_payload (λ n. true) log stream (97 ∷ []) max_inbuf_sz []
    ≡ some (
      101 ∷ [],
      record { string = 97 ∷ 98 ∷ []; terminated = false }
          ∷ record { string = 99 ∷ 100 ∷ []; terminated = true }
          ∷ [],
      done,
    )
stream-passed =
    ctrl_split_payload-strings (λ n. true) log (λ n. refl) stream (97 ∷ []) max_inbuf_sz []
      (omega arith)

split_example :
    ctrl_split_payload (λ n. true) log stream (97 ∷ []) max_inbuf_sz []
    ≡ outcome log (97 ∷ []) max_inbuf_sz [] (glue (97 ∷ []) (strings (payload_of stream)))
split_example =
    ctrl_split_payload-strings (λ n. true) log (λ n. refl) stream (97 ∷ []) max_inbuf_sz []
      (omega arith)
