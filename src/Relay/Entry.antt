-- ===== src/Relay/Entry.antt =====
-- `main`: its port and its routes, with what the two handlers are set to.
use ktty.Base.{
  ◌^◌, ℕ, ◌+◌, ◌*◌, ◌-◌, Text, lit, ◌&&◌, List, [], ◌∷◌, Option, none, some, get_elem?, leb, ltb,
  ◌==◌, if◌then◌else◌,
}
use mathlib.Core.Option
use ktty.Relay.Handler.{max_text_frame_bytes}

-- The digits of a number below 2^16, after those that gave `acc`: `from_str_radix` stops where the
-- number would not fit.
unfoldable pub parse_digits : ℕ → Text → Option ℕ
parse_digits acc [] = some acc
parse_digits acc (c ∷ cs) =
    let next = acc * 10 + (c - b'0') in
    let rest = parse_digits next cs in
    if leb b'0' c && leb c b'9' && ltb next (2 ^ 16) then rest else none

-- `parse::<u16>`: one digit at least, after a plus sign or not.
unfoldable pub parse_u16 : Text → Option ℕ
unfolding parse_digits
parse_u16 [] = none
parse_u16 (c ∷ []) = parse_digits 0 (c ∷ [])
parse_u16 (c ∷ d ∷ cs) = if c == b'+' then parse_digits 0 (d ∷ cs) else parse_digits 0 (c ∷ d ∷ cs)

-- The first argument after the program's name, where it is a port.
unfoldable pub port : List Text → ℕ
unfolding parse_u16
port args = Option.get_or (Option.bind (get_elem? args 1) parse_u16) 8080

-- A period of the background task is 30 seconds.
abbrev pub sweep_interval : ℕ
sweep_interval = 30 * 1_000_000_000

abbrev pub max_ws_message_bytes : ℕ
max_ws_message_bytes = 256 * 1024

-- What the upgrade is configured with.
pub record Limits : Type 0 where
  pub max_frame_size : ℕ
  pub max_message_size : ℕ

abbrev pub ws_handler : Limits
ws_handler = record {
  max_frame_size = max_text_frame_bytes;
  max_message_size = max_ws_message_bytes;
}

pub record Response : Type 0 where
  pub status : ℕ
  pub headers : List (Text × Text)
  pub body : Text

abbrev pub health_handler : Response
health_handler = record {
  status = 200;
  headers =
      (lit "content-type", lit "application/json")
      ∷ (lit "access-control-allow-origin", lit "*")
      ∷ (lit "cache-control", lit "no-store")
      ∷ [];
  body = lit "{\"status\":\"ok\"}";
}

-- The handler of a path: a socket with its limits, or a response.
pub data Route : Type 0 where
  upgrades : Limits → Route
  responds : Response → Route

abbrev pub routes : List (Text × Route)
routes = (lit "/ws", upgrades ws_handler) ∷ (lit "/health", responds health_handler) ∷ []
