-- ===== src/Utils/Tests.antt =====
-- Addresses on concrete bytes.
use mefs_go_settlement.Base.{◌≡◌, arith, drop}
use mefs_go_settlement.Utils.Hex.{to_string, hex_to_address, hex_to_address-to_string}

hex_to_address-to_string_example :
    (hex_to_address (to_string 0xbeef) ≡ 0xbeef)
    × (hex_to_address (drop 2 (to_string 0xbeef)) ≡ 0xbeef)
hex_to_address-to_string_example = hex_to_address-to_string 0xbeef (omega arith)
