-- ===== src/Types.antt =====
-- Object types, vnode types and the types of directory entries, and times (hammer_subs.c).
pub mod Agree
use hammer_linux.Base.{ℕ, ◌+◌, ◌*◌, ◌/◌, ◌%◌, ◌==◌, if◌then◌else◌}

-- enum vtype
pub data VType : Type 0 where
  vnon vreg vdir vblk vchr vlnk vsock vfifo vbad vdatabase : VType

-- DT_DIR and its kin
pub data DType : Type 0 where
  dt_dir dt_reg dt_dbf dt_fifo dt_sock dt_chr dt_blk dt_lnk dt_unknown : DType

-- The HAMMER_OBJTYPE constants are 1 to 7 and 9, and 0 for an unknown one.
pub hammer_get_vnode_type : (obj_type : ℕ) → VType
hammer_get_vnode_type obj_type =
    if obj_type == 1
    then vdir
    else if obj_type == 2
    then vreg
    else if obj_type == 3
    then vdatabase
    else if obj_type == 4
    then vfifo
    else if obj_type == 9
    then vsock
    else if obj_type == 5
    then vchr
    else if obj_type == 6
    then vblk
    else if obj_type == 7
    then vlnk
    else vbad

pub hammer_get_dtype : (obj_type : ℕ) → DType
hammer_get_dtype obj_type =
    if obj_type == 1
    then dt_dir
    else if obj_type == 2
    then dt_reg
    else if obj_type == 3
    then dt_dbf
    else if obj_type == 4
    then dt_fifo
    else if obj_type == 9
    then dt_sock
    else if obj_type == 5
    then dt_chr
    else if obj_type == 6
    then dt_blk
    else if obj_type == 7
    then dt_lnk
    else dt_unknown

pub hammer_get_obj_type : VType → ℕ
hammer_get_obj_type vdir = 1
hammer_get_obj_type vreg = 2
hammer_get_obj_type vdatabase = 3
hammer_get_obj_type vfifo = 4
hammer_get_obj_type vsock = 9
hammer_get_obj_type vchr = 5
hammer_get_obj_type vblk = 6
hammer_get_obj_type vlnk = 7
hammer_get_obj_type vnon = 0
hammer_get_obj_type vbad = 0

-- struct timespec, with times that are not negative.
pub record Timespec : Type 0 where
  pub tv_sec : ℕ
  pub tv_nsec : ℕ

pub hammer_time_to_timespec : (xtime : ℕ) → Timespec
hammer_time_to_timespec xtime = record {
  tv_sec = xtime / 1000000;
  tv_nsec = xtime % 1000000 * 1000;
}

pub hammer_timespec_to_time : Timespec → ℕ
hammer_timespec_to_time ts =
    (ts.tv_nsec / 1000 % 0x100000000 + ts.tv_sec * 1000000) % 0x10000000000000000
