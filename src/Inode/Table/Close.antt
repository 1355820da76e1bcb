-- ===== src/Inode/Table/Close.antt =====
-- inode_close() of filesys/inode.c.
use pintos.Inode.Table.{Inode}
