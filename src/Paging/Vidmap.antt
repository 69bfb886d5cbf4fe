-- ===== src/Paging/Vidmap.antt =====
-- The page of video memory that `create_vidmap` of student-distrib/paging.c gives to a program.
use unix_like_os.Paging.{Paging}
