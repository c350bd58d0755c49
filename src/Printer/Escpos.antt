-- ===== src/Printer/Escpos.antt =====
-- internal/printer/printer.go: the ESC/POS control sequences and the test slip. The network
-- connection of `SendRaw` is a parameter where a handler prints.
use pos_agent.Base.{[], ◌∷◌, ◌++◌, Text, text}

abbrev pub esc_init : Text
esc_init = 27 ∷ 64 ∷ []

abbrev pub align_center : Text
align_center = 27 ∷ 97 ∷ 1 ∷ []

abbrev pub align_left : Text
align_left = 27 ∷ 97 ∷ 0 ∷ []

abbrev pub bold_on : Text
bold_on = 27 ∷ 69 ∷ 1 ∷ []

abbrev pub bold_off : Text
bold_off = 27 ∷ 69 ∷ 0 ∷ []

abbrev pub double_size : Text
double_size = 29 ∷ 33 ∷ 17 ∷ []

abbrev pub normal_size : Text
normal_size = 29 ∷ 33 ∷ 0 ∷ []

abbrev pub feed_and_cut : Text
feed_and_cut = 29 ∷ 86 ∷ 66 ∷ 0 ∷ []

abbrev pub line_feed : Text
line_feed = 10 ∷ []

abbrev pub new_line : Text
new_line = 10 ∷ []

-- `testReceipt`
unfoldable pub test_receipt : Text
test_receipt =
    esc_init
    ++ align_center
    ++ double_size
    ++ bold_on
    ++ text "Printer ready"
    ++ new_line
    ++ bold_off
    ++ normal_size
    ++ new_line
    ++ text "Your receipt printer is set up"
    ++ new_line
    ++ text "and working."
    ++ new_line
    ++ new_line
    ++ text "You can start selling."
    ++ new_line
    ++ align_left
    ++ line_feed
    ++ feed_and_cut
