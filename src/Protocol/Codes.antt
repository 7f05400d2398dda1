-- ===== src/Protocol/Codes.antt =====
-- The message codes, the minimum values and the rejection codes of `pkg/protocol`.
use Prim.Native.Nat.{bit_and}
use smart_contract.Prelude.{ℕ, Bytes, ascii, Bool, ◌==◌, if◌then◌else◌, Option, none, some, []}

-- The constants `Code…`: each constructor is the text of one, `t1` the "T1" of `CodeSend`.
pub data Code : Type 0 where
  a1 a2 a3 c1 c2 c3 e1 e2 e3 e4 e5 : Code
  g1 g2 g3 g4 g5 g6 m1 m2 r1 r2 r3 r4 t1 t2 t3 t4 : Code

abbrev pub dust_limit : ℕ
dust_limit = 546

abbrev pub limit_default : ℕ
limit_default = 2000

-- `Minimum[code]`; E5, G5 and G6 have no entry.
abbrev pub minimum : Code → Option ℕ
minimum Code.c1 = some limit_default
minimum Code.c2 = some dust_limit
minimum Code.c3 = some limit_default
minimum Code.a1 = some limit_default
minimum Code.a2 = some dust_limit
minimum Code.a3 = some limit_default
minimum Code.t1 = some limit_default
minimum Code.t2 = some limit_default
minimum Code.t3 = some limit_default
minimum Code.t4 = some dust_limit
minimum Code.g1 = some limit_default
minimum Code.g2 = some limit_default
minimum Code.g3 = some dust_limit
minimum Code.g4 = some limit_default
minimum Code.g5 = none
minimum Code.g6 = none
minimum Code.e1 = some limit_default
minimum Code.e2 = some dust_limit
minimum Code.e3 = some dust_limit
minimum Code.e4 = some dust_limit
minimum Code.e5 = none
minimum Code.r1 = some dust_limit
minimum Code.r2 = some dust_limit
minimum Code.r3 = some dust_limit
minimum Code.r4 = some dust_limit
minimum Code.m1 = some limit_default
minimum Code.m2 = some dust_limit

-- `RejectionCodes[code]`, the empty slice where the map has no entry.
abbrev pub rejection_text : ℕ → Bytes
rejection_text c =
    if c == 1
    then ascii "Fee Not Paid"
    else if c == 2
    then ascii "Issuer Address"
    else if c == 3
    then ascii "Duplicate Asset ID"
    else if c == 4
    then ascii "Fixed Quantity"
    else if c == 5
    then ascii "Contract Exists"
    else if c == 6
    then ascii "Contract Not Dynamic"
    else if c == 7
    then ascii "Contract Qty Reduction"
    else if c == 8
    then ascii "Contract Auth Flags"
    else if c == 9
    then ascii "Contract Expiration"
    else if c == 10
    then ascii "Contract Update"
    else if c == 11
    then ascii "Vote Exists"
    else if c == 12
    then ascii "Vote Not Found"
    else if c == 13
    then ascii "Vote Closed"
    else if c == 14
    then ascii "Asset Not Found"
    else if c == 15
    then ascii "Insufficient Assets"
    else if c == 16
    then ascii "Transfer Self"
    else if c == 17
    then ascii "Receiver Unspecified"
    else if c == 18
    then ascii "Unknown Address"
    else if c == 19
    then ascii "Frozen"
    else if c == 20
    then ascii "Contract Revision incorrect"
    else if c == 21
    then ascii "Asset Revision incorrect"
    else []

-- `state&flags == flags`
abbrev pub is_authorized : ℕ → ℕ → Bool
is_authorized state flags = bit_and state flags == flags

abbrev pub vote_logic_weighted : ℕ
vote_logic_weighted = b'1'
