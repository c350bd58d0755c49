-- ===== src/Scan/Tests.antt =====
-- internal/scan/scan.go: a printer with two ports.
use pos_agent.Base.{refl, true, List, [], ◌∷◌, text, text_eq, In, inl}
use pos_agent.Base.Sort.{sort}
use pos_agent.Scan.{Hit, Device, devices_of}
use pos_agent.Scan.Devices.{AddrIsGood, devices_of-AddrIsGood}

abbrev two_ports : List Hit
two_ports =
    record { ip = text "192.168.1.9"; port = 9100 }
    ∷ record { ip = text "192.168.1.9"; port = 515 }
    ∷ []

abbrev raw_printer : Device
raw_printer = record { ip = text "192.168.1.9"; ports = 515 ∷ 9100 ∷ []; likely = true }

raw_printer_found : In raw_printer (devices_of two_ports)
unfolding devices_of text_eq sort
raw_printer_found = inl refl

devices_of-AddrIsGood_example : AddrIsGood two_ports raw_printer
devices_of-AddrIsGood_example = devices_of-AddrIsGood two_ports raw_printer raw_printer_found
