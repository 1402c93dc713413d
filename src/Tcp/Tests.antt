-- ===== src/Tcp/Tests.antt =====
-- The properties of a TCP actor at one user and two commands.
use clu.Prelude.{
  ◌≡◌, refl, Bool, text_eq, true, false, none, some, [], ◌∷◌, ◌++◌, Text, text, ok, has_char,
}
use clu.Prelude.Dict.{elem, keys}
use clu.Reply.{done}
use clu.Tcp.{
  TcpActor, TcpOutput, FullReply, number, new_command, strip_right, new_user, full_reply,
  write_internal,
}
use clu.Tcp.Lines.{IsPlain, new_command_lem}
use clu.Tcp.Users.{lines_to, new_user-write_internal}

status-IsPlain : IsPlain b's' (text "tatus")
unfolding strip_right has_char
status-IsPlain = record { starts = refl; ends = refl; one_line = refl }

new_command_lem_example :
    new_command 1 none (text "12 status")
    ≡ some (record {
      command_string = text "status";
      command_id = 12;
      commander_id = none;
      transport = some 1;
    })
unfolding number
new_command_lem_example =
    new_command_lem 1 none b'1' (text "2") b's' (text "tatus") refl status-IsPlain

abbrev one_user : TcpActor
one_user = record {
  name = text "lamps";
  transports = (text "u1", 1) ∷ [];
  user_ids = (1, text "u1") ∷ [];
  multilines = (1, true) ∷ [];
  written = [];
}

abbrev news : TcpOutput
news = record { code = done; message = []; command = none; broadcast = false; internal = false }

abbrev shown : Bool → FullReply → Text
shown true r = text "{ }"
shown false r = text "{}"

u2-new : elem (text "u2") (keys one_user.transports) ≡ false
unfolding elem text_eq
u2-new = refl

new_user-write_internal_example :
    (b c : TcpActor) × (new_user 2 false (text "u2") one_user ≡ ok b)
    × ((write_internal shown news b).written
        ≡ lines_to shown (full_reply shown (text "lamps") news) b.multilines one_user.transports
          ++ (2, text "{}" ++ (10 ∷ [])) ∷ [])
    × (new_user 2 true (text "u3") b ≡ ok c)
    × (c.transports ≡ one_user.transports)
new_user-write_internal_example =
    new_user-write_internal shown 2 (text "u2") (text "u3") news one_user u2-new refl
