-- ===== src/Core/Endian.antt =====
-- include/keydrop/core/endian.hpp and src/core/endian.cpp: conversion between the byte order of
-- the machine and the little-endian order of the wire. The machine is a parameter.
pub mod Laws
use keydrop.Base.{ℕ, ◌+◌, ◌*◌, ◌/◌, ◌%◌, ◌^◌, bit_and, bit_or}
use keydrop.Base.{Bool, true, false, List, [], ◌∷◌, if◌then◌else◌, ◌==◌, ◌&&◌, get_or, le_bytes}
use mathlib.Core.List.{reverse}

pub data Endian : Type 0 where
  little big : Endian

-- The machine: its byte order, and whether its compiler defines `__BYTE_ORDER__`.
pub record Host : Type 0 where
  pub order : Endian
  pub defines_byte_order : Bool

-- The bytes of an unsigned object of `w` bytes with the value `v`, as they stand in memory.
unfoldable pub object_bytes : Host → ℕ → ℕ → List ℕ
object_bytes host w v = elim host.order [ little ↦ le_bytes w v | big ↦ reverse (le_bytes w v) ]

-- The first byte of a `u16` that holds 1 tells the order.
unfoldable pub system_endian : Host → Endian
unfolding object_bytes le_bytes
system_endian host = if get_or (object_bytes host 2 1) 0 0 == 1 then little else big

abbrev is_little : Endian → Bool
is_little little = true
is_little big = false

-- KEYDROP_IS_LITTLE_ENDIAN
unfoldable pub compiled_little : Host → Bool
compiled_little host = host.defines_byte_order && is_little host.order

unfoldable pub to_little_endian_16 : Host → ℕ → ℕ
to_little_endian_16 host value =
    if compiled_little host
    then value
    else if is_little (system_endian host)
    then value
    else bit_or (value / 2 ^ 8) (value * 2 ^ 8) % 2 ^ 16

-- A shift to the left drops the bits above the width. `or_all` is `x | y | …`, from the left.
abbrev pub or_all : ℕ → List ℕ → ℕ
or_all acc [] = acc
or_all acc (x ∷ xs) = or_all (bit_or acc x) xs

unfoldable pub to_little_endian_32 : Host → ℕ → ℕ
to_little_endian_32 host value =
    if compiled_little host
    then value
    else if is_little (system_endian host)
    then value
    else or_all (bit_and (value / 2 ^ 24) 0x000000FF) (
        bit_and (value / 2 ^ 8) 0x0000FF00
        ∷ bit_and (value * 2 ^ 8 % 2 ^ 32) 0x00FF0000
        ∷ bit_and (value * 2 ^ 24 % 2 ^ 32) 0xFF000000
        ∷ [])

unfoldable pub to_little_endian_64 : Host → ℕ → ℕ
to_little_endian_64 host value =
    if compiled_little host
    then value
    else if is_little (system_endian host)
    then value
    else or_all (bit_and (value / 2 ^ 56) 0x00000000000000FF) (
        bit_and (value / 2 ^ 40) 0x000000000000FF00
        ∷ bit_and (value / 2 ^ 24) 0x0000000000FF0000
        ∷ bit_and (value / 2 ^ 8) 0x00000000FF000000
        ∷ bit_and (value * 2 ^ 8 % 2 ^ 64) 0x000000FF00000000
        ∷ bit_and (value * 2 ^ 24 % 2 ^ 64) 0x0000FF0000000000
        ∷ bit_and (value * 2 ^ 40 % 2 ^ 64) 0x00FF000000000000
        ∷ bit_and (value * 2 ^ 56 % 2 ^ 64) 0xFF00000000000000
        ∷ [])

abbrev pub from_little_endian_16 : Host → ℕ → ℕ
from_little_endian_16 host value = to_little_endian_16 host value

abbrev pub from_little_endian_32 : Host → ℕ → ℕ
from_little_endian_32 host value = to_little_endian_32 host value

abbrev pub from_little_endian_64 : Host → ℕ → ℕ
from_little_endian_64 host value = to_little_endian_64 host value
