-- ===== src/Torrstor.antt =====
-- internal/gostorm/torr/storage/torrstor: the torrent pieces that are held in memory.
pub mod Piece
pub mod Reader
pub mod Protect
pub mod Priority
pub mod Cache
pub mod Clean
pub mod Readers
pub mod Shield
