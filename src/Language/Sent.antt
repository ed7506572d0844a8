-- ===== src/Language/Sent.antt =====
-- A typed line on its way to the server: crates/command/src/parser.rs with crates/transport/src/codec/mod.rs.
use Prim.Native.Char.{Char}
use vaylix.Prelude.{ℕ, ◌≡◌, some, List, ◌++◌, ok}
use vaylix.Engine.Command.{Command}
use vaylix.Transport.Buf.{Buf}
use vaylix.Transport.Request.{Request, RequestMetadata, with_metadata, from_command}
use vaylix.Transport.Codec.{CodecOptions, Library, encode_request}
use vaylix.Transport.Codec.Frames.{IsWithin}
use vaylix.Transport.Codec.Bodies.{IsRequest, receive, receive-from_command}
use vaylix.Language.Parser.{parse}
use vaylix.Language.Parser.Typed.{parse-IsTyped, IsTyped-Fits}

-- The command of a line that a client parses, makes a request of, with metadata that fit their
-- fields, and encodes within the limits of the reader is the command that the server receives,
-- whatever follows it on the stream.
pub receive-parse :
    (b : Buf) (lib : Library) (writer reader : CodecOptions) (input : List Char) (id : List ℕ)
    (c : Command) (m : RequestMetadata) (r : Request) (bytes rest : List ℕ)
    → parse input ≡ some (ok c)
    → from_command b id c ≡ ok r
    → IsWithin writer reader
    → IsRequest (with_metadata m r)
    → encode_request b lib (with_metadata m r) writer ≡ ok bytes
    → receive b lib reader (bytes ++ rest) ≡ ok (c, rest)
receive-parse b lib writer reader input id c m r bytes rest parsed sent within v e =
    receive-from_command b lib writer reader id c m r bytes rest within
      (IsTyped-Fits c (parse-IsTyped input c parsed)) sent v e
