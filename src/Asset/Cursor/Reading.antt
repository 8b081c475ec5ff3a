-- ===== src/Asset/Cursor/Reading.antt =====
-- That decodeCursor of backend/internal/asset/transport/http/cursor.go reads what encodeCursor
-- wrote.
use ai_portfolio_research_as.Prelude.{
  ◌≡◌, ◌≤◌, refl, sym, ap, ◌∙◌, arith, true, false, ◌||◌, some, none, Option, ok, >>=-eq-ok,
  fail_if, ◌>>◌, length, ltb,
}
use ai_portfolio_research_as.Text.{Bytes, is_empty, equal}
use ai_portfolio_research_as.Text.Equality.{equal_refl}
use ai_portfolio_research_as.Text.Utf8.{valid_string}
use ai_portfolio_research_as.Transaction.Value.{Uuid, is_zero}
use ai_portfolio_research_as.Asset.Service.{CursorPosition}
use ai_portfolio_research_as.Asset.Cursor.{
  invalid_cursor, CursorCodec, or_invalid, payload_of, encode_cursor, position_of_payload,
  decode_cursor,
}

-- What the packages document: each reader reads what its writer wrote, of strings in UTF-8, and no
-- writer writes the empty text.
pub record IsCodec (codec : CursorCodec) : Type 0 where
  pub read_marshal :
      (position : CursorPosition) (text : Bytes)
      → valid_string position.symbol ≡ true
      → valid_string position.exchange ≡ true
      → codec.marshal (payload_of codec position) ≡ some text
      → codec.read_payload text ≡ some (payload_of codec position, true)
  pub marshal_filled :
      (position : CursorPosition) (text : Bytes)
      → codec.marshal (payload_of codec position) ≡ some text
      → is_empty text ≡ false
  pub decode_encode : (text : Bytes) → codec.decode_base64 (codec.encode_base64 text) ≡ some text
  pub encode_filled :
      (text : Bytes) → is_empty text ≡ false → is_empty (codec.encode_base64 text) ≡ false
  pub parse_text : (id : Uuid) → codec.parse_uuid (codec.uuid_text id) ≡ some id
  pub text_filled : (id : Uuid) → is_empty (codec.uuid_text id) ≡ false

or_invalid-ok : {A : Type 0} (o : Option A) (a : A) → or_invalid o ≡ ok a → o ≡ some a
or_invalid-ok none a h = cc
or_invalid-ok (some b) a h = cc

module _ (codec : CursorCodec) (laws : IsCodec codec) where
  position_of_payload-payload_of :
      (position : CursorPosition)
      → (is_zero position.asset_id || is_empty position.symbol || is_empty position.exchange)
        ≡ false
      → position_of_payload codec (payload_of codec position) ≡ ok position
  unfolding position_of_payload
  position_of_payload-payload_of position good =
      let zero_id : is_zero position.asset_id ≡ false = ground (arith, good) in
      let symbol : is_empty position.symbol ≡ false = ground (arith, good) in
      let exchange : is_empty position.exchange ≡ false = ground (arith, good) in
      rw symbol (
        rw exchange (
          rw (laws.text_filled position.asset_id) (
            rw (laws.parse_text position.asset_id)
              (rw zero_id (rw (equal_refl (codec.uuid_text position.asset_id)) refl)))))

  -- For a lawful codec, the cursor that encodeCursor writes of a position whose texts are in UTF-8
  -- is read back by decodeCursor, if it has at most 512 bytes.
  pub decode_cursor-encode_cursor :
      (position : CursorPosition) (text : Bytes)
      → valid_string position.symbol ≡ true
      → valid_string position.exchange ≡ true
      → length text ≤ 512
      → encode_cursor codec position ≡ ok text
      → decode_cursor codec text ≡ ok position
  unfolding encode_cursor decode_cursor
  decode_cursor-encode_cursor position text u v short h =
      let bad =
        is_zero position.asset_id || is_empty position.symbol || is_empty position.exchange in
      let checked = fail_if bad invalid_cursor in
      let written = or_invalid (codec.marshal (payload_of codec position)) in
      let (payload, h1, h2) = >>=-eq-ok (checked >> written) _ h in
      let (_, e, h3) = >>=-eq-ok checked (λ _. written) h1 in
      let marshalled = or_invalid-ok (codec.marshal (payload_of codec position)) payload h3 in
      let same : codec.encode_base64 payload ≡ text = cc in
      let filled =
        ap is_empty (sym same)
        ∙ laws.encode_filled payload (laws.marshal_filled position payload marshalled) in
      let long : ltb 512 (length text) ≡ false = ground (arith, short) in
      let decoded = ap codec.decode_base64 (sym same) ∙ laws.decode_encode payload in
      let canonical : equal (codec.encode_base64 payload) text ≡ true = rw same (equal_refl text) in
      rw filled (
        rw long (
          rw decoded (
            rw canonical (
              rw (laws.read_marshal position payload u v marshalled)
                (position_of_payload-payload_of position (ground (arith, e)))))))
