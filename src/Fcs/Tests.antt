-- ===== src/Fcs/Tests.antt =====
-- The check sequence on concrete bytes.
use zenoh_proxy.Prelude.{◌≡◌, refl, [], ◌∷◌, arith}
use zenoh_proxy.Fcs.{table_at, write, write_all, result, fcs_start}
use zenoh_proxy.Fcs.Reference.{crc_byte, write-crc_byte}

-- The check value of CRC-16/X-25 for the text "123456789".
check_value :
    result (write_all fcs_start (0x31 ∷ 0x32 ∷ 0x33 ∷ 0x34 ∷ 0x35 ∷ 0x36 ∷ 0x37 ∷ 0x38 ∷ 0x39 ∷ []))
    ≡ 0x906e
unfolding write_all write table_at result
check_value = refl

write-crc_byte_example : write 0x1234 0x7e ≡ crc_byte 0x1234 0x7e
write-crc_byte_example = write-crc_byte 0x1234 0x7e (omega arith) (omega arith)
