-- ===== src/Tests/Entry.antt =====
-- The relay's port, from its arguments.
use ktty.Base.{◌≡◌, refl, lit, [], ◌∷◌}
use mathlib.Core.Option
use ktty.Relay.Entry.{parse_digits, parse_u16, port}

given : port (lit "ktty-relay" ∷ lit "9000" ∷ []) ≡ 9000
unfolding port parse_u16 parse_digits Option.bind
given = refl

signed : port (lit "ktty-relay" ∷ lit "+80" ∷ []) ≡ 80
unfolding port parse_u16 parse_digits Option.bind
signed = refl

absent : port (lit "ktty-relay" ∷ []) ≡ 8080
unfolding port Option.bind
absent = refl

too_large : port (lit "ktty-relay" ∷ lit "65536" ∷ []) ≡ 8080
unfolding port parse_u16 parse_digits Option.bind
too_large = refl

no_number : port (lit "ktty-relay" ∷ lit "80a" ∷ []) ≡ 8080
unfolding port parse_u16 parse_digits Option.bind
no_number = refl

lone_sign : port (lit "ktty-relay" ∷ lit "+" ∷ []) ≡ 8080
unfolding port parse_u16 parse_digits Option.bind
lone_sign = refl
