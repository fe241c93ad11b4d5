-- ===== src/Kernel/Blocks/Tests.antt =====
-- A disk of 100 blocks with the first three in use.
use meph_i_semester_4_acos.Base.{◌≡◌, refl, ◌&&◌, [], ◌==◌, ltb, if◌then◌else◌, update}
use meph_i_semester_4_acos.Kernel.Blocks.{Disk, Inode, scan_bits, balloc_from, balloc, bmap}
use meph_i_semester_4_acos.Kernel.Blocks.Free.{claimed}
use meph_i_semester_4_acos.Kernel.Blocks.Address.{address, Mapped, bmap-Mapped}

abbrev disk : Disk
disk = record {
  map = λ b byte i. b == 58 && (byte == 0 && ltb i 3);
  words = λ b i. if b == 2 && i == 5 then 77 else 0;
  size = 100;
  bmapstart = 58;
  logged = [];
}

-- block 2 is the indirect block, and block 12 + 5 of the file is block 77
abbrev inode : Inode
inode = record { inum = 9; size = 20000; addrs = λ i. if i == 12 then 2 else 0 }

-- a direct block that is not there yet
bmap-Mapped_example :
    Mapped inode 4 disk (3, record inode { addrs = update inode.addrs 4 3 }, claimed 3 disk)
unfolding bmap balloc balloc_from scan_bits
bmap-Mapped_example =
    bmap-Mapped inode 4 disk (3, record inode { addrs = update inode.addrs 4 3 }, claimed 3 disk)
      refl refl refl

address-indirect : address inode 17 disk ≡ 77
address-indirect = refl
