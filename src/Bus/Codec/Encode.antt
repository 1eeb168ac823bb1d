-- ===== src/Bus/Codec/Encode.antt =====
-- The encoder of bus/codec.c.
use hailburst.Prelude.{
  ℕ, ◌+◌, Bool, true, false, not, ◌&&◌, ◌||◌, List, [], ◌∷◌, ◌++◌, length, ltb, ◌==◌, if◌then◌else◌,
  Outcome, ok, ◌>>=◌, ◌>>◌, assert, be32,
}
use hailburst.Bus.Codec.Symbol.{is_special, is_parametrized, escape_sym, flip}
use hailburst.Synch.Duct.{Duct, send_prepare, send_message, send_commit}

-- `fw_encoder_t`, without its duct.
pub record Encoder : Type 0 where
  pub tx : List ℕ
  pub tx_capacity : ℕ

-- The bytes that the loop body of `fakewire_enc_encode_data` writes for one byte, if they fit.
abbrev pub escaped : ℕ → List ℕ
escaped byte = if is_special byte then escape_sym ∷ flip byte ∷ [] else byte ∷ []

-- The loop, from `in_offset` on: what is on the line, and how many bytes were taken.
unfoldable pub encode_bytes : ℕ → List ℕ → List ℕ → ℕ → List ℕ × ℕ
encode_bytes capacity tx [] in_offset = (tx, in_offset)
encode_bytes capacity tx (byte ∷ rest) in_offset =
    elim (ltb capacity (length tx + (if is_special byte then 2 else 1))) [
      | true ↦ (tx, in_offset)
      | false ↦ encode_bytes capacity (tx ++ escaped byte) rest (in_offset + 1)
    ]

unfoldable pub enc_encode_data : Encoder → List ℕ → Outcome (Encoder × ℕ)
enc_encode_data fwe bytes_in = do
  assert (ltb 0 (length bytes_in))
  let (tx, in_offset) = encode_bytes fwe.tx_capacity fwe.tx bytes_in 0
  ok (record fwe { tx = tx }, in_offset)

-- The parameter's bytes, for which there is room.
unfoldable pub encode_param : Encoder → ℕ → Outcome (Encoder × Bool)
encode_param fwe param = do
  (fwe', actual) ← enc_encode_data fwe (be32 param)
  assert (actual == 4)
  ok (fwe', true)

unfoldable pub enc_encode_ctrl : Encoder → ℕ → ℕ → Outcome (Encoder × Bool)
enc_encode_ctrl fwe symbol param = do
  assert (is_special symbol && not (symbol == escape_sym))
  parametrized ← is_parametrized symbol
  assert (param == 0 || parametrized)
  let fwe' : Encoder = record fwe { tx = fwe.tx ++ symbol ∷ [] }
  if ltb fwe.tx_capacity (length fwe.tx + (if parametrized then 9 else 1))
      then ok (fwe, false)
      else if parametrized
      then encode_param fwe' param
      else ok (fwe', true)

-- The checks are on the duct that the encoder writes to.
unfoldable pub enc_prepare : Encoder → Duct → Outcome Encoder
enc_prepare fwe d = do
  assert (d.max_flow == 1)
  assert (fwe.tx_capacity == d.message_size)
  ok (record fwe { tx = [] })

unfoldable pub enc_commit : (ℕ → ℕ) → Encoder → Duct → ℕ → Outcome Duct
enc_commit now fwe d replica = do
  (d', t) ← send_prepare now d replica
  let sent = send_message d' t fwe.tx 0
  (d'', t') ← (if ltb 0 (length fwe.tx) then sent else ok (d', t))
  (d''', _) ← send_commit d'' t'
  ok d'''
