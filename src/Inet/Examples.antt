-- ===== src/Inet/Examples.antt =====
-- 10.1.3.7 as a text and as a number.
use innerstack.Prelude.{◌≡◌, none, Text, Option, arith}
use innerstack.Inet.{Quad, uint32_to_ipv4, ipv4_to_uint32}
use innerstack.Inet.Dotted.{ipv4_to_uint32-uint32_to_ipv4}

abbrev no_ipv6 : Text → Option Quad
no_ipv6 s = none

ipv4_to_uint32-uint32_to_ipv4_example :
    ipv4_to_uint32 no_ipv6 (uint32_to_ipv4 167_838_471) ≡ 167_838_471
ipv4_to_uint32-uint32_to_ipv4_example =
    ipv4_to_uint32-uint32_to_ipv4 no_ipv6 167_838_471 (omega arith)
