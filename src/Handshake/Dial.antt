-- ===== src/Handshake/Dial.antt =====
-- client.go: `negotiate` as a whole, and `Dial`; connection.go: `ReStart`. A dialer is what it returns:
-- an error, or the network. `header_verify` is the user's function, if there is one.
use webson.Common.{ℕ, Bool, true, ◌||◌, List, Option, none, some}
use webson.Errors.{Error, eof, Result, ok, err}
use webson.Message.{NegoSet}
use webson.Message.Assemble.{Flate}
use webson.Config.{Config, setup}
use webson.Connection.{Connection}
use webson.Connection.Start.{Served, start}
use webson.Handshake.{Header, new_connection}
use webson.Handshake.Fields.{Fields, header_of}
use webson.Handshake.Url.{SimpleUrl, parse_url}
use webson.Handshake.Request.{request_fields, request_bytes}
use webson.Handshake.Answer.{Answer, answered, answer_error, answer_fuel, read_answer}
use webson.Handshake.Client.{accept_answer}
use webson.Reader.{Reader, new_reader}

-- The other side: what it sends, how that ends, and whether the request can be written to it.
pub record Network : Type 0 where
  pub pieces : List (List ℕ)
  pub ending : Error
  pub write_error : Option Error

-- The values that `negotiate` draws or is given.
pub record Dialing : Type 0 where
  pub digest : List ℕ → List ℕ
  pub challenge : List ℕ
  pub extra : Fields
  pub header_verify : Option (Header → Bool)

abbrev pub passes : Option (Header → Bool) → Header → Bool
passes none h = true
passes (some verify) h = verify h

-- A network that was dialed and then given up is closed. `sent` is the request. The bytes that the
-- reader of the answer has buffered are not handed on: `left` is the network behind them.
pub data Negotiated : Type 0 where
  not_dialed : Error → Negotiated
  given_up : Error → Negotiated
  negotiated : List ℕ → NegoSet → List (List ℕ) → Negotiated

abbrev pub accepted : List ℕ → Reader → Result NegoSet → Negotiated
accepted sent r (err e) = given_up e
accepted sent r (ok nego) = negotiated sent nego r.pending

abbrev pub on_answer : Dialing → Config → List ℕ → Answer → Negotiated
on_answer d c sent (answered fs r) =
    accepted sent r
      (accept_answer d.digest d.challenge (passes d.header_verify (header_of fs)) c (header_of fs))
on_answer d c sent (answer_error e) = given_up e
on_answer d c sent answer_fuel = given_up eof

-- `bufio.NewReader` has a buffer of 4096 bytes.
unfoldable pub negotiate : Dialing → SimpleUrl → Result Network → Config → Negotiated
unfolding request_fields request_bytes read_answer
negotiate d url (err e) c = not_dialed e
negotiate d url (ok n) c = elim n.write_error [
  | some e ↦ given_up e
  | none ↦
      on_answer d c (request_bytes url (request_fields d.challenge d.extra c))
        (read_answer (new_reader 4096 n.pieces n.ending))
]

-- How `Dial` ends, with the network that `Start` will read from.
pub data Dialed : Type 0 where
  dial_panics : Dialed
  dial_fails : Error → Dialed
  dialed : Connection → List (List ℕ) → Dialed

abbrev pub connected : (ℕ → List ℕ) → Config → Negotiated → Dialed
connected entropy c (not_dialed e) = dial_fails e
connected entropy c (given_up e) = dial_fails e
connected entropy c (negotiated sent nego left) = dialed (new_connection true c nego entropy) left

-- `dialer` opens the network for the host of the URL, with TLS or without.
unfoldable pub dial :
    Dialing → (ℕ → List ℕ) → (Bool → List ℕ → Result Network) → Bool → List ℕ → Config → Dialed
unfolding negotiate
dial d entropy dialer use_tls addr config = elim (parse_url addr) [
  | none ↦ dial_panics
  | some url ↦ elim (setup config) [
    | err e ↦ dial_fails e
    | ok c ↦ connected entropy c (negotiate d url (dialer (url.use_tls || use_tls) url.host_port) c)
  ]
]

-- `ReStart` dials again and drops what comes of it: `Start` reads from the old network.
unfoldable pub restart : Negotiated → Flate → (ℕ → ℕ) → Connection → Reader → Served
restart result f clock con r = start f clock con r
