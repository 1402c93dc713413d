-- ===== src/Legacy/Tests.antt =====
-- The properties of the legacy actor at two users.
use clu.Prelude.{◌≡◌, refl, true, false, some, List, [], ◌∷◌, Text, text, ok, arith, has_char}
use clu.Value.{str}
use clu.Value
use clu.Reply.{Message, info}
use clu.Legacy.{Transport, Transports, get, or_number, bodies, is_blank, write_internal}
use clu.Legacy.Users.{IsValid}
use clu.Legacy.Delivery.{lines_to, lines_of, with_transport, reply_to_commander}

abbrev first : Transport
first = record { ref = 10; user_id = 1 }

abbrev second : Transport
second = record { ref = 20; user_id = 2 }

abbrev users : Transports
users = (1, first) ∷ (2, second) ∷ []

users-IsValid : IsValid users
users-IsValid = (refl, omega arith, refl, (refl, omega arith, refl, tt))

abbrev same : Text → Text
same t = t

abbrev reply : Message
reply = (text "lamp", str (text "on")) ∷ (text "door", str (text "off")) ∷ []

abbrev reply_bodies : List Text
reply_bodies = text "lamp=on" ∷ text "door=off" ∷ []

reply-bodies : bodies same reply ≡ ok reply_bodies
unfolding bodies is_blank Value.format_value Value.format_str has_char
reply-bodies = refl

get-second : get 2 users ≡ some second
unfolding get
get-second = refl

reply_to_commander_example :
    write_internal same users (some (with_transport 7 second)) info reply false 0 0 true
    ≡ ok (lines_to second (lines_of (2, or_number 0 7) info true reply_bodies))
reply_to_commander_example =
    reply_to_commander same users info reply true reply_bodies reply-bodies 7 0 0 second get-second
      (omega arith)
