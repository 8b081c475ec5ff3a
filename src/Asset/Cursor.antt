-- ===== src/Asset/Cursor.antt =====
-- backend/internal/asset/transport/http/cursor.go: the cursor of a page of assets as a text. The
-- functions of encoding/json, encoding/base64 and the UUID package are a parameter.
pub mod Reading
use ai_portfolio_research_as.Prelude.{
  Bool, not, ◌||◌, Option, none, some, Result, ok, err, fail_if, ◌>>=◌, ◌>>◌, ltb, length,
}
use ai_portfolio_research_as.Prelude.Int.{ℤ, pos, eqb_ℤ}
use ai_portfolio_research_as.Text.{Bytes, is_empty, equal}
use ai_portfolio_research_as.Transaction.Value.{Uuid, is_zero}
use ai_portfolio_research_as.Asset.Service.{CursorPosition}

-- `errInvalidRequest`
pub data CursorError : Type 0 where
  invalid_cursor : CursorError

pub record CursorPayload : Type 0 where
  pub version : ℤ
  pub symbol : Bytes
  pub exchange : Bytes
  pub asset_id : Bytes

-- What cursor.go calls; `none` is an error. `read_payload` is `Decode` without unknown fields, and
-- whether only the end of the text follows.
pub record CursorCodec : Type 0 where
  pub marshal : CursorPayload → Option Bytes
  pub read_payload : Bytes → Option (CursorPayload × Bool)
  pub encode_base64 : Bytes → Bytes
  pub decode_base64 : Bytes → Option Bytes
  pub parse_uuid : Bytes → Option Uuid
  pub uuid_text : Uuid → Bytes

abbrev pub or_invalid : {A : Type 0} → Option A → Result CursorError A
or_invalid none = err invalid_cursor
or_invalid (some value) = ok value

module _ (codec : CursorCodec) where
  abbrev pub payload_of : CursorPosition → CursorPayload
  payload_of position = record {
    version = pos 1;
    symbol = position.symbol;
    exchange = position.exchange;
    asset_id = codec.uuid_text position.asset_id;
  }

  unfoldable pub encode_cursor : CursorPosition → Result CursorError Bytes
  encode_cursor position =
      let bad =
        is_zero position.asset_id || is_empty position.symbol || is_empty position.exchange in
      fail_if bad invalid_cursor >> or_invalid (codec.marshal (payload_of position)) >>= λ payload.
      ok (codec.encode_base64 payload)

  abbrev pub bad_payload : CursorPayload → Bool
  bad_payload payload =
      not (eqb_ℤ payload.version (pos 1))
      || is_empty payload.symbol
      || is_empty payload.exchange
      || is_empty payload.asset_id

  unfoldable pub position_of_payload : CursorPayload → Result CursorError CursorPosition
  position_of_payload payload =
      fail_if (bad_payload payload) invalid_cursor
      >> or_invalid (codec.parse_uuid payload.asset_id)
      >>= λ id.
          fail_if (is_zero id || not (equal (codec.uuid_text id) payload.asset_id)) invalid_cursor
          >> ok (record { symbol = payload.symbol; exchange = payload.exchange; asset_id = id })

  abbrev pub whole : CursorPayload × Bool → Result CursorError CursorPosition
  whole (payload, ended) = fail_if (not ended) invalid_cursor >> position_of_payload payload

  unfoldable pub decode_cursor : Bytes → Result CursorError CursorPosition
  decode_cursor value =
      fail_if (is_empty value || ltb 512 (length value)) invalid_cursor
      >> or_invalid (codec.decode_base64 value)
      >>= λ encoded.
          fail_if (not (equal (codec.encode_base64 encoded) value)) invalid_cursor
          >> or_invalid (codec.read_payload encoded)
          >>= whole
