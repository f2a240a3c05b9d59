-- ===== src/Ext2/Files/Overwriting.antt =====
-- `write_ext2_disk` of src/ext2_fs.c within one block of a file.
