-- ===== src/Types/Agree.antt =====
-- The conversions of types and times against each other.
use hammer_linux.Base.{ℕ, ◌<◌, ◌≡◌, ◌⊎◌, inl, inr, refl, arith}
use hammer_linux.Types.{
  VType, vnon, vreg, vdir, vblk, vchr, vlnk, vsock, vfifo, vbad, vdatabase, DType, dt_dir, dt_reg,
  dt_dbf, dt_fifo, dt_sock, dt_chr, dt_blk, dt_lnk, dt_unknown, hammer_get_vnode_type,
  hammer_get_dtype, hammer_get_obj_type, hammer_time_to_timespec, hammer_timespec_to_time,
}

-- The type of a directory entry for a vnode.
abbrev pub entry_type : VType → DType
entry_type vdir = dt_dir
entry_type vreg = dt_reg
entry_type vdatabase = dt_dbf
entry_type vfifo = dt_fifo
entry_type vsock = dt_sock
entry_type vchr = dt_chr
entry_type vblk = dt_blk
entry_type vlnk = dt_lnk
entry_type vnon = dt_unknown
entry_type vbad = dt_unknown

abbrev pub Agrees : ℕ → VType → DType → Type 0
Agrees t v d = (d ≡ entry_type v) × ((hammer_get_obj_type v ≡ t) ⊎ (v ≡ vbad))

-- For each number, the type of a directory entry is that of the vnode type, and the vnode type gives
-- back the number, unless it is bad.
pub hammer_get_obj_type-hammer_get_vnode_type :
    (t : ℕ) → Agrees t (hammer_get_vnode_type t) (hammer_get_dtype t)
unfolding hammer_get_vnode_type hammer_get_dtype hammer_get_obj_type
hammer_get_obj_type-hammer_get_vnode_type t = ground arith

-- A vnode type is given back by its number, unless there is none for it.
pub hammer_get_vnode_type-hammer_get_obj_type :
    (v : VType) → (hammer_get_vnode_type (hammer_get_obj_type v) ≡ v) ⊎ (hammer_get_obj_type v ≡ 0)
unfolding hammer_get_vnode_type hammer_get_obj_type
hammer_get_vnode_type-hammer_get_obj_type vdir = inl refl
hammer_get_vnode_type-hammer_get_obj_type vreg = inl refl
hammer_get_vnode_type-hammer_get_obj_type vdatabase = inl refl
hammer_get_vnode_type-hammer_get_obj_type vfifo = inl refl
hammer_get_vnode_type-hammer_get_obj_type vsock = inl refl
hammer_get_vnode_type-hammer_get_obj_type vchr = inl refl
hammer_get_vnode_type-hammer_get_obj_type vblk = inl refl
hammer_get_vnode_type-hammer_get_obj_type vlnk = inl refl
hammer_get_vnode_type-hammer_get_obj_type vnon = inr refl
hammer_get_vnode_type-hammer_get_obj_type vbad = inr refl

-- A time survives the conversion to a timespec and back, which has less than 10^9 nanoseconds.
pub hammer_timespec_to_time-hammer_time_to_timespec :
    (xtime : ℕ)
    → xtime < 0x10000000000000000
    → (hammer_timespec_to_time (hammer_time_to_timespec xtime) ≡ xtime)
      × ((hammer_time_to_timespec xtime).tv_nsec < 1000000000)
unfolding hammer_timespec_to_time hammer_time_to_timespec
hammer_timespec_to_time-hammer_time_to_timespec xtime h = (omega arith, omega arith)
