-- ===== src/FileIo.antt =====
-- Programs of 01-lowlevel-academy-c that read the header of a file: file_input.c and file_metadata.c of
-- 09_file_input_output, and 11_advanced_c/src. Output is file_output.c.
pub mod Header
pub mod Metadata
pub mod Count
pub mod Output
pub mod Opening
