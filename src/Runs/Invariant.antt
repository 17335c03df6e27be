-- ===== src/Runs/Invariant.antt =====
-- The invariant of the server over the runs of src/ChatServer.cpp and its sessions.
use cherry_recorder_server.StringMap
use cherry_recorder_server.ChatServer.{ChatServer}
use cherry_recorder_server.ChatServer.Sessions
use cherry_recorder_server.WebSocketSession
use cherry_recorder_server.ChatSession
