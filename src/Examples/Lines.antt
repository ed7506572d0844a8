-- ===== src/Examples/Lines.antt =====
-- Instances of the theorems on typed lines.
use vaylix.Prelude.{◌≡◌, ◌≢◌, refl, none, some, List, [], ◌∷◌, ◌++◌, ok}
use vaylix.Engine.Command.{Command}
use vaylix.Transport.Codec.{default_options}
use vaylix.Transport.Codec.Bodies.{receive}
use vaylix.Language.Lexer.{Token, tokenize}
use vaylix.Language.Lexer.RoundTrip.{characters, render, tokenize-render}
use vaylix.Language.Lexer.Total.{tokenize-ne-none}
use vaylix.Language.Parser.{parse}
use vaylix.Language.Parser.Good.{IsTyped}
use vaylix.Language.Parser.Typed.{parse-IsTyped}
use vaylix.Language.Sent.{receive-parse}
use vaylix.Examples.Wire.{
  big_endian, stored, id_1, get_k, sent_metadata, get_request, get_frame, plain_options,
  plain_options-IsWithin, get_request-IsRequest,
}

abbrev set_tokens : List Token
set_tokens = Token.word "set" ∷ Token.quoted_string "a \"b\" \\" ∷ Token.word "v" ∷ []

tokenize-render_example : tokenize (render set_tokens) ≡ some (ok set_tokens)
tokenize-render_example =
    tokenize-render set_tokens
      (((refl, refl), ((refl, refl), ((refl, refl), tt))), (tt, (((refl, refl), tt), tt)))

tokenize-ne-none_example : tokenize (characters "get \"k") ≢ none
tokenize-ne-none_example = tokenize-ne-none (characters "get \"k")

parse-IsTyped_example : IsTyped (Command.expire "k" 60)
unfolding parse tokenize vaylix.Language.Lexer.read_word vaylix.Language.Lexer.tokenize_loop
    vaylix.Language.Parser.parse_command vaylix.Language.Parser.parse_expire
    vaylix.Language.Parser.parse_tokens vaylix.Language.Words.keyword
    vaylix.Language.Words.parse_u64 vaylix.Text.as_bytes vaylix.Text.utf8_char
parse-IsTyped_example = parse-IsTyped (characters "EXPIRE k 60") (Command.expire "k" 60) refl

receive-parse_example :
    receive big_endian stored default_options (get_frame ++ 1 ∷ 2 ∷ []) ≡ ok (get_k, 1 ∷ 2 ∷ [])
unfolding parse tokenize vaylix.Examples.Wire.to_be_bytes vaylix.Language.Lexer.read_word
    vaylix.Language.Lexer.tokenize_loop vaylix.Language.Parser.parse_command
    vaylix.Language.Parser.parse_single_key vaylix.Language.Parser.parse_tokens
    vaylix.Language.Words.keyword vaylix.Text.as_bytes vaylix.Text.utf8_char
    vaylix.Transport.Codec.encode_frame vaylix.Transport.Codec.encode_request
    vaylix.Transport.Codec.encode_request_body vaylix.Transport.Codec.framed
    vaylix.Transport.Codec.maybe_compress vaylix.Transport.Codec.metadata_flags
    vaylix.Transport.Codec.should_compress vaylix.Transport.Frame.encode_header
    vaylix.Transport.Frame.new_header vaylix.Transport.Opcode.opcode_byte
    vaylix.Transport.Primitives.put_bytes vaylix.Transport.Primitives.put_string_u16
    vaylix.Transport.Request.encode_key vaylix.Transport.Request.from_command
    vaylix.Transport.Request.payload_of
receive-parse_example =
    receive-parse big_endian stored plain_options default_options (characters " GET k") id_1 get_k
      sent_metadata get_request get_frame (1 ∷ 2 ∷ []) refl refl plain_options-IsWithin
      get_request-IsRequest refl
