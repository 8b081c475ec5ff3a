-- ===== src/Tests/Cursors.antt =====
-- A run of backend/internal/asset/transport/http/cursor.go with a codec that puts the lengths in
-- front.
use ai_portfolio_research_as.Prelude.{
  ◌≡◌, refl, sym, ap, ◌∙◌, arith, ℕ, zero, suc, Bool, true, [], ◌∷◌, ◌++◌, Option, none, some, ok,
  length,
}
use ai_portfolio_research_as.Prelude.Int.{pos}
use ai_portfolio_research_as.Text.{Bytes, codes, is_empty}
use ai_portfolio_research_as.Transaction.Value.{Uuid}
use ai_portfolio_research_as.Asset.Service.{CursorPosition}
use ai_portfolio_research_as.Asset.Cursor.{
  CursorPayload, CursorCodec, encode_cursor, decode_cursor, payload_of,
}
use ai_portfolio_research_as.Asset.Cursor.Reading.{IsCodec, decode_cursor-encode_cursor}

abbrev head_of : Bytes → Option Uuid
head_of [] = none
head_of (i ∷ _) = some i

abbrev packed : Bytes → Bytes → Bytes → Option Bytes
packed symbol exchange [] = none
packed symbol exchange (i ∷ _) = some (i ∷ length symbol ∷ (symbol ++ exchange))

abbrev front : ℕ → Bytes → Bytes
front zero text = []
front (suc n) [] = []
front (suc n) (c ∷ text) = c ∷ front n text

abbrev behind : ℕ → Bytes → Bytes
behind zero text = text
behind (suc n) [] = []
behind (suc n) (c ∷ text) = behind n text

abbrev unpacked : Bytes → Option (CursorPayload × Bool)
unpacked (i ∷ n ∷ text) = some (
  record { version = pos 1; symbol = front n text; exchange = behind n text; asset_id = i ∷ [] },
  true,
)
unpacked _ = none

abbrev codec : CursorCodec
codec = record {
  marshal = λ p. packed p.symbol p.exchange p.asset_id;
  read_payload = unpacked;
  encode_base64 = λ text. text;
  decode_base64 = λ text. some text;
  parse_uuid = head_of;
  uuid_text = λ id. id ∷ [];
}

front-append : (s t : Bytes) → front (length s) (s ++ t) ≡ s
front-append [] t = refl
front-append (c ∷ s) t = ap (λ (l : Bytes). c ∷ l) (front-append s t)

behind-append : (s t : Bytes) → behind (length s) (s ++ t) ≡ t
behind-append [] t = refl
behind-append (c ∷ s) t = behind-append s t

unpacked-packed :
    (position : CursorPosition)
    → unpacked (position.asset_id ∷ length position.symbol ∷ (position.symbol ++ position.exchange))
      ≡ some (payload_of codec position, true)
unpacked-packed position =
    rw (front-append position.symbol position.exchange)
      (rw (behind-append position.symbol position.exchange) refl)

packed_text :
    (position : CursorPosition) (text : Bytes)
    → codec.marshal (payload_of codec position) ≡ some text
    → (position.asset_id ∷ length position.symbol ∷ (position.symbol ++ position.exchange)) ≡ text
packed_text position text h = cc

codec-IsCodec : IsCodec codec
codec-IsCodec = record {
  read_marshal = λ position text u v h.
      sym (ap unpacked (packed_text position text h)) ∙ unpacked-packed position;
  marshal_filled = λ position text h. sym (ap is_empty (packed_text position text h));
  decode_encode = λ text. refl;
  encode_filled = λ text h. h;
  parse_text = λ id. refl;
  text_filled = λ id. refl;
}

abbrev position : CursorPosition
position = record { symbol = codes "VOO"; exchange = codes "NYSE"; asset_id = 7 }

abbrev cursor : Bytes
cursor = 7 ∷ 3 ∷ codes "VOONYSE"

written : encode_cursor codec position ≡ ok cursor
unfolding encode_cursor
written = refl

utf8 :
    (ai_portfolio_research_as.Text.Utf8.valid_string (codes "VOO") ≡ true)
    × (ai_portfolio_research_as.Text.Utf8.valid_string (codes "NYSE") ≡ true)
unfolding ai_portfolio_research_as.Text.Utf8.valid_string
utf8 = (refl, refl)

decode_cursor-encode_cursor_example : decode_cursor codec cursor ≡ ok position
decode_cursor-encode_cursor_example =
    decode_cursor-encode_cursor codec codec-IsCodec position cursor utf8.0 utf8.1 (omega arith)
      written
