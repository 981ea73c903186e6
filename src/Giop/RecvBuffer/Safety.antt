-- ===== src/Giop/RecvBuffer/Safety.antt =====
-- The readers do not read outside the message, whatever it holds.
pub mod Steps
pub use Steps.{
  Ensures, Ensures->>=, Inside, Ends, IsWord, IsSlice, IsLow, HasLeft, IsBoundary-le,
  aligned_u32-IsWord, align_cur-Ends, need-HasLeft, get_u16-Inside, get_slice-IsSlice,
  aligned_slice-IsSlice,
}
