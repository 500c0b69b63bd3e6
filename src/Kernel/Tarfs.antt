-- ===== src/Kernel/Tarfs.antt =====
-- The header of a file in a tar archive, include/sys/tarfs.h.
use sbuoperating_system.Prelude.{◌*◌, ◌≡◌, refl, [], ◌∷◌}
use sbuoperating_system.Kernel.Layout.{Struct, field, uint8_t, sizeof}

abbrev pub posix_header_ustar : Struct
posix_header_ustar = record {
  members =
      field "name" (uint8_t * 100)
      ∷ field "mode" (uint8_t * 8)
      ∷ field "uid" (uint8_t * 8)
      ∷ field "gid" (uint8_t * 8)
      ∷ field "size" (uint8_t * 12)
      ∷ field "mtime" (uint8_t * 12)
      ∷ field "checksum" (uint8_t * 8)
      ∷ field "typeflag" (uint8_t * 1)
      ∷ field "linkname" (uint8_t * 100)
      ∷ field "magic" (uint8_t * 6)
      ∷ field "version" (uint8_t * 2)
      ∷ field "uname" (uint8_t * 32)
      ∷ field "gname" (uint8_t * 32)
      ∷ field "devmajor" (uint8_t * 8)
      ∷ field "devminor" (uint8_t * 8)
      ∷ field "prefix" (uint8_t * 155)
      ∷ field "pad" (uint8_t * 12)
      ∷ [];
  alignment = 1;
}

-- The header fills one block of the archive.
ustar_block : sizeof posix_header_ustar ≡ 512
unfolding sizeof
ustar_block = refl
