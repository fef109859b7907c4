-- ===== src/CategoryId.antt =====
-- internal/categoryid/categoryid.go: the fixed ids of the six mandatory categories, as the 128-bit
-- numbers of their UUIDs.
use bank_system_public.Base.{ℕ}

abbrev pub membership_fee : ℕ
membership_fee = 0x00000000000040008000000000000001

abbrev pub salary : ℕ
salary = 0x00000000000040008000000000000002

abbrev pub other_income : ℕ
other_income = 0x00000000000040008000000000000003

abbrev pub other_expense : ℕ
other_expense = 0x00000000000040008000000000000004

abbrev pub internal_transfer : ℕ
internal_transfer = 0x00000000000040008000000000000005

abbrev pub credited_interest : ℕ
credited_interest = 0x00000000000040008000000000000006
